-- ===== src/Server/Handlers/Routes/Listed.antt =====
-- No reply lists more than a thousand.
use key_manager.Base.{
  suc, ℕ, ◌≤◌, ◌≡◌, refl, ap, subst, inl, inr, Bool, ◌||◌, Option, none, some, List, [], ◌∷◌,
  Result, ok, arith, Result-cases, Bool-cases, Option-cases, length, is_some, min,
}
use key_manager.Base.Text.{Str}
use key_manager.Server.Action.{bind_ok}
use key_manager.Server.Errors.{ApiError}
use key_manager.Server.Validate.{max_scan_limit, validate_account_id}
use key_manager.Server.Models.Params.{
  GetParams, AccountsQueryParams, ContractsQueryParams, DiffParams, BatchQuery, EdgesParams,
  EdgesCountParams, WatchParams, SocialProfileParams, SocialFollowParams,
}
use key_manager.Server.RedisDb.{health_check, query_edges}
use key_manager.Server.RedisDb.Sizes.{
  length-query_accounts_by_contract, length-query_all_accounts, length-query_contracts_by_account,
  length-query_all_contracts,
}
use key_manager.Server.Handlers.{Services, AppState, HttpRequest, HttpResponse, Value, require_db}
use key_manager.Server.Handlers.Checks.{account, scan_limit}
use key_manager.Server.Handlers.Passing
use key_manager.Server.Handlers.Entries.{get_kv_handler, diff_kv_handler}
use key_manager.Server.Handlers.Lists.{
  health_check_handler, status_handler, list_accounts, accounts_handler, list_contracts,
  contracts_handler, batch_items, batch_kv_handler, edges_handler, edges_count_handler,
}
use key_manager.Server.Handlers.Watch.{watch_kv_handler, claim_watch}
use key_manager.Server.Handlers.Social.{
  resolve_contract, social_get_handler, social_keys_handler, social_index_handler,
  social_profile_handler, social_followers_handler, social_following_handler,
  social_account_feed_handler,
}
use key_manager.Server.Handlers.Routes.{Route, serve}
use key_manager.Server.Handlers.Routes.Bounds.{
  listed, ListsAtMost, listed-ListsAtMost, ok-injective, query_db_ok, with_db_ok, query_listed,
  history_listed, writers_listed, timeline_listed,
}

module _ {W E : Type 0} (services : Services W E) where
  abbrev Reply : Type 0
  Reply = HttpResponse (Value services)

  -- A reply that is returned lists what it lists.
  lists :
      (n : ℕ) (body reply : Reply)
      → let r : Result Reply ApiError = ok body in
        r ≡ ok reply → listed body.body ≤ n → listed reply.body ≤ n
  lists n body reply h few = subst (λ r. listed r.body ≤ n) (ok-injective body reply h) few

  get_listed :
      (q : GetParams) (state : AppState W) (reply : Reply)
      → (get_kv_handler services q state).0 ≡ ok reply
      → listed reply.body ≤ 1000
  unfolding get_kv_handler
  get_listed q state reply h =
      let (passes, h1) = with_db_ok services _ _ state reply h in
      let (entry, got, h2) = bind_ok _ _ state reply h1 in
      let (fields, parsed, h3) = bind_ok _ _ _ reply h2 in
      let (decode, decoded, h4) = bind_ok _ _ _ reply h3 in
      elim (Option-cases entry) [
        | inl e ↦ ground (arith, e, h4)
        | inr (x, e) ↦ elim (Bool-cases (is_some fields || decode)) [
          | inl b ↦ ground (arith, e, b, h4)
          | inr b ↦ ground (arith, e, b, h4)
        ]
      ]

  diff_listed :
      (q : DiffParams) (state : AppState W) (reply : Reply)
      → (diff_kv_handler services q state).0 ≡ ok reply
      → listed reply.body ≤ 1000
  unfolding diff_kv_handler
  diff_listed q state reply h =
      let (passes, h1) = with_db_ok services _ _ state reply h in
      let (a, got_a, h2) = bind_ok _ _ state reply h1 in
      let (b, got_b, h3) = bind_ok _ _ _ reply h2 in
      let (fields, parsed, h4) = bind_ok _ _ _ reply h3 in
      let (decode, decoded, h5) = bind_ok _ _ _ reply h4 in
      elim (Bool-cases (is_some fields || decode)) [
        | inl e ↦ ground (arith, e, h5)
        | inr e ↦ ground (arith, e, h5)
      ]

  length-batch_items :
      (p c : Str) (keys : List Str) (state : AppState W)
      → length (batch_items services p c keys state).0 ≡ length keys
  unfolding batch_items
  length-batch_items p c [] state = refl
  length-batch_items p c (key ∷ keys) state = ap suc (length-batch_items p c keys _)

  batch_listed :
      (q : BatchQuery) (state : AppState W) (reply : Reply)
      → (batch_kv_handler services q state).0 ≡ ok reply
      → listed reply.body ≤ 1000
  unfolding batch_kv_handler
  batch_listed q state reply h =
      let (passes, h1) = with_db_ok services _ _ state reply h in
      let fits = Passing.batch_checks-BatchFits q passes in
      lists 1000 _ reply h1 (
        omega
          (arith, length-batch_items q.predecessor_id q.current_account_id q.keys state, fits.3))

  listed-list_accounts :
      (contract_id : Option Str) (q : AccountsQueryParams) (state : AppState W) (reply : Reply)
      → (list_accounts services contract_id q state).0 ≡ ok reply
      → scan_limit q ≤ 1000
      → listed reply.body ≤ 1000
  unfolding list_accounts
  listed-list_accounts (some cid) q state reply h few =
      let (found, got, h1) = bind_ok _ _ state reply h in
      let bound =
        length-query_accounts_by_contract services.redis services.queries services.chain_id cid
          q.key (scan_limit q) q.offset q.after_account state.world found
          (query_db_ok services _ state found got) in
      lists 1000 _ reply h1 (omega (arith, bound, few))
  listed-list_accounts none q state reply h few =
      let (found, got, h1) = bind_ok _ _ state reply h in
      let bound =
        length-query_all_accounts services.redis services.queries services.chain_id (scan_limit q)
          q.after_account state.world found (query_db_ok services _ state found got) in
      lists 1000 _ reply h1 (omega (arith, bound, few))

  accounts_listed :
      (req : HttpRequest) (q : AccountsQueryParams) (state : AppState W) (reply : Reply)
      → (accounts_handler services req q state).0 ≡ ok reply
      → listed reply.body ≤ 1000
  unfolding accounts_handler
  accounts_listed req q state reply h =
      let (u, passes, h1) = bind_ok _ _ state reply h in
      let (v, calm, h2) = bind_ok _ _ _ reply h1 in
      let (x, on, h3) = bind_ok _ _ _ reply h2 in
      let fits = Passing.accounts_checks-AccountsFits q passes in
      listed-list_accounts q.contract_id q _ reply h3 fits.1.1

  length-list_contracts :
      (account_id : Option Str) (req : HttpRequest) (q : ContractsQueryParams) (state : AppState W)
      (found : List Str × Bool × ℕ)
      → (list_contracts services account_id req q state).0 ≡ ok found
      → length found.0 ≤ min q.limit max_scan_limit
  unfolding list_contracts
  length-list_contracts (some a) req q state found h =
      let (u, passes, h1) = bind_ok _ _ state found h in
      length-query_contracts_by_account services.redis services.queries services.chain_id a
        (min q.limit max_scan_limit) q.after_contract _ found (query_db_ok services _ _ found h1)
  length-list_contracts none req q state found h =
      let (u, passes, h1) = bind_ok _ _ state found h in
      length-query_all_contracts services.redis services.queries services.chain_id
        (min q.limit max_scan_limit) q.after_contract _ found (query_db_ok services _ _ found h1)

  contracts_listed :
      (req : HttpRequest) (q : ContractsQueryParams) (state : AppState W) (reply : Reply)
      → (contracts_handler services req q state).0 ≡ ok reply
      → listed reply.body ≤ 1000
  unfolding contracts_handler
  contracts_listed req q state reply h =
      let (passes, h1) = with_db_ok services _ _ state reply h in
      let (found, got, h2) = bind_ok _ _ state reply h1 in
      lists 1000 _ reply h2
        (omega (arith, length-list_contracts q.predecessor_id req q state found got))

  edges_listed :
      (q : EdgesParams) (state : AppState W) (reply : Reply)
      → (edges_handler services q state).0 ≡ ok reply
      → listed reply.body ≤ 1000
  unfolding edges_handler query_edges
  edges_listed q state reply h =
      let (passes, h1) = with_db_ok services _ _ state reply h in
      let (found, got, h2) = bind_ok _ _ state reply h1 in
      let nothing : [] ≡ found.0 =
        ap (λ p. p.0) (ok-injective _ found (query_db_ok services _ state found got)) in
      lists 1000 _ reply h2 (subst (λ es. length es ≤ 1000) nothing (omega arith))

  edges_count_listed :
      (q : EdgesCountParams) (state : AppState W) (reply : Reply)
      → (edges_count_handler services q state).0 ≡ ok reply
      → listed reply.body ≤ 1000
  unfolding edges_count_handler
  edges_count_listed q state reply h =
      let (passes, h1) = with_db_ok services _ _ state reply h in
      let (count, got, h2) = bind_ok _ _ state reply h1 in lists 1000 _ reply h2 (omega arith)

  health_listed :
      (state : AppState W) (reply : Reply)
      → (health_check_handler services state).0 ≡ ok reply
      → listed reply.body ≤ 1000
  unfolding health_check_handler
  health_listed state reply h = elim (Bool-cases state.has_db) [
    | inl on ↦
        elim (Result-cases
          (health_check services.redis services.queries services.chain_id state.world).0) [
            | inl (u, good) ↦ ground (arith, on, good, h)
            | inr (e, bad) ↦ ground (arith, on, bad, h)
          ]
    | inr off ↦ ground (arith, off, h)
  ]

  watch_listed :
      (q : WatchParams) (req : HttpRequest) (state : AppState W) (reply : Reply)
      → (watch_kv_handler services q req state).0 ≡ ok reply
      → listed reply.body ≤ 1000
  unfolding watch_kv_handler require_db
  watch_listed q req state reply h =
      let (u, passes, h1) = bind_ok _ _ state reply h in
      let (v, claimed, h2) = bind_ok _ _ _ reply h1 in
      elim (Bool-cases (claim_watch services state).1.has_db) [
        | inl on ↦ ground (arith, on, h2)
        | inr off ↦ absurd (ground (arith, off, h2))
      ]

  profile_listed :
      (q : SocialProfileParams) (state : AppState W) (reply : Reply)
      → (social_profile_handler services q state).0 ≡ ok reply
      → listed reply.body ≤ 1000
  unfolding social_profile_handler
  profile_listed q state reply h = elim (Result-cases (validate_account_id q.account_id account)) [
    | inr (e, bad) ↦ absurd (ground (arith, bad, h))
    | inl (u, good) ↦ elim (Result-cases (resolve_contract services q.contract_id)) [
      | inr (e, bad) ↦ absurd (ground (arith, good, bad, h))
      | inl (c, found) ↦ ground (arith, good, found, h)
    ]
  ]

  followers_listed :
      (q : SocialFollowParams) (state : AppState W) (reply : Reply)
      → (social_followers_handler services q state).0 ≡ ok reply
      → listed reply.body ≤ 1000
  unfolding social_followers_handler
  followers_listed q state reply h =
      elim (Result-cases (validate_account_id q.account_id account)) [
        | inr (e, bad) ↦ absurd (ground (arith, bad, h))
        | inl (u, good) ↦ elim (Result-cases (resolve_contract services q.contract_id)) [
          | inr (e, bad) ↦ absurd (ground (arith, good, bad, h))
          | inl (c, found) ↦ ground (arith, good, found, h)
        ]
      ]

  following_listed :
      (q : SocialFollowParams) (state : AppState W) (reply : Reply)
      → (social_following_handler services q state).0 ≡ ok reply
      → listed reply.body ≤ 1000
  unfolding social_following_handler
  following_listed q state reply h =
      elim (Result-cases (validate_account_id q.account_id account)) [
        | inr (e, bad) ↦ absurd (ground (arith, bad, h))
        | inl (u, good) ↦ elim (Result-cases (resolve_contract services q.contract_id)) [
          | inr (e, bad) ↦ absurd (ground (arith, good, bad, h))
          | inl (c, found) ↦ ground (arith, good, found, h)
        ]
      ]

  -- A reply lists at most 1,000 entries, names or results, and a reply that is a tree is built from
  -- at most 1,000 entries, whatever Redis answers.
  pub serve-listed :
      (req : HttpRequest) (route : Route) (state : AppState W) (reply : Reply)
      → (serve services req route state).0 ≡ ok reply
      → ListsAtMost services.json 1000 reply.body
  unfolding serve status_handler social_get_handler social_keys_handler social_index_handler
      social_account_feed_handler
  serve-listed req Route.health state reply h =
      listed-ListsAtMost services.json reply.body (health_listed state reply h)
  serve-listed req Route.status state reply h =
      listed-ListsAtMost services.json reply.body (lists 1000 _ reply h (omega arith))
  serve-listed req (Route.get q) state reply h =
      listed-ListsAtMost services.json reply.body (get_listed q state reply h)
  serve-listed req (Route.query q) state reply h = query_listed services q state reply h
  serve-listed req (Route.history q) state reply h =
      listed-ListsAtMost services.json reply.body (history_listed services q state reply h)
  serve-listed req (Route.writers q) state reply h =
      listed-ListsAtMost services.json reply.body (writers_listed services q state reply h)
  serve-listed req (Route.batch q) state reply h =
      listed-ListsAtMost services.json reply.body (batch_listed q state reply h)
  serve-listed req (Route.diff q) state reply h =
      listed-ListsAtMost services.json reply.body (diff_listed q state reply h)
  serve-listed req (Route.timeline q) state reply h =
      listed-ListsAtMost services.json reply.body (timeline_listed services q state reply h)
  serve-listed req (Route.edges q) state reply h =
      listed-ListsAtMost services.json reply.body (edges_listed q state reply h)
  serve-listed req (Route.edges_count q) state reply h =
      listed-ListsAtMost services.json reply.body (edges_count_listed q state reply h)
  serve-listed req (Route.accounts q) state reply h =
      listed-ListsAtMost services.json reply.body (accounts_listed req q state reply h)
  serve-listed req (Route.contracts q) state reply h =
      listed-ListsAtMost services.json reply.body (contracts_listed req q state reply h)
  serve-listed req (Route.watch q) state reply h =
      listed-ListsAtMost services.json reply.body (watch_listed q req state reply h)
  serve-listed req (Route.social_get q) state reply h =
      listed-ListsAtMost services.json reply.body (lists 1000 _ reply h (omega arith))
  serve-listed req (Route.social_keys q) state reply h =
      listed-ListsAtMost services.json reply.body (lists 1000 _ reply h (omega arith))
  serve-listed req (Route.social_index q) state reply h =
      listed-ListsAtMost services.json reply.body (lists 1000 _ reply h (omega arith))
  serve-listed req (Route.social_account_feed q) state reply h =
      listed-ListsAtMost services.json reply.body (lists 1000 _ reply h (omega arith))
  serve-listed req (Route.social_profile q) state reply h =
      listed-ListsAtMost services.json reply.body (profile_listed q state reply h)
  serve-listed req (Route.social_followers q) state reply h =
      listed-ListsAtMost services.json reply.body (followers_listed q state reply h)
  serve-listed req (Route.social_following q) state reply h =
      listed-ListsAtMost services.json reply.body (following_listed q state reply h)
