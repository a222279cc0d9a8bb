-- ===== src/Server/Handlers/Routes/Guards.antt =====
-- No request reaches Redis before its parameters are checked.
use key_manager.Base.{
  ◌≡◌, ◌≢◌, ◌⊎◌, subst, leb, Result, refl, sym, ◌∙◌, inl, inr, true, Option, none, some, ok, arith,
  Result-cases, Bool-cases, Option-cases,
}
use key_manager.Base.Text.{Str}
use key_manager.Server.Action.{bind_ok, pure, from_result, ◌>>=◌, ◌>>◌}
use key_manager.Server.Errors.{ApiError}
use key_manager.Server.Validate.{Check, validate_account_id}
use key_manager.Server.Validate.Laws.{Passes, validate_account_id_iff}
use key_manager.Server.Handlers.{
  Services, AppState, Handler, HttpRequest, HttpResponse, Value, require_db, with_db, throttle_scan,
}
use key_manager.Server.Handlers.Checks
use key_manager.Server.Handlers.Fits.{
  IfGiven, IsAccount, GetFits, QueryFits, HistoryFits, WritersFits, TimelineFits, AccountsFits,
  ContractsFits, DiffFits, BatchFits, EdgesFits, EdgesCountFits, WatchFits,
}
use key_manager.Server.Handlers.Passing
use key_manager.Server.Models.Params.{
  GetParams, QueryParams, HistoryParams, WritersParams, DiffParams, TimelineParams, BatchQuery,
  EdgesParams, EdgesCountParams, AccountsQueryParams, ContractsQueryParams, WatchParams,
}
use key_manager.Server.Handlers.Entries.{
  get_kv_handler, query_kv_handler, history_kv_handler, writers_handler, diff_kv_handler,
  timeline_kv_handler,
}
use key_manager.Server.Handlers.Lists.{
  batch_kv_handler, edges_handler, edges_count_handler, health_check_handler, status_handler,
  accounts_handler, contracts_handler, throttle_accounts, list_accounts, list_contracts,
}
use key_manager.Server.Handlers.Watch.{
  max_concurrent_watches, watch_kv_handler, claim_watch, release_watch,
}
use key_manager.Server.Handlers.Social.{
  social_get_handler, social_keys_handler, social_index_handler, social_profile_handler,
  social_followers_handler, social_following_handler, social_account_feed_handler,
}
use key_manager.Server.Handlers.Routes.{Route, serve}

-- The parameters of a request are as its handler demands. No social request is ever one.
abbrev pub Fits : Route → Type 0
Fits (Route.get q) = GetFits q
Fits (Route.query q) = QueryFits q
Fits (Route.history q) = HistoryFits q
Fits (Route.writers q) = WritersFits q
Fits (Route.batch q) = BatchFits q
Fits (Route.diff q) = DiffFits q
Fits (Route.timeline q) = TimelineFits q
Fits (Route.accounts q) = AccountsFits q
Fits (Route.contracts q) = ContractsFits q × IfGiven IsAccount q.predecessor_id
Fits (Route.edges q) = EdgesFits q
Fits (Route.edges_count q) = EdgesCountFits q
Fits (Route.watch q) = WatchFits q
Fits Route.health = Unit
Fits Route.status = Unit
Fits _ = ⊥

-- The replies to the request that let it use Redis: a watch reads it only while its stream runs.
abbrev pub OpensStream : Route → {A : Type 0} → Result A ApiError → Type 0
OpensStream (Route.watch q) (ok reply) = Unit
OpensStream _ _ = ⊥

-- The world of Redis is not what it was before.
abbrev pub Reaches : {W A : Type 0} → Handler W A → AppState W → Type 0
Reaches m state = (m state).1.world ≢ state.world

check_first :
    {W A : Type 0} (c : Check) (k : Handler W A) (state : AppState W)
    → Reaches (from_result c >> k) state
    → Passes c × Reaches k state
unfolding ◌>>=◌
check_first c k state h = elim (Result-cases c) [
  | inr (e, bad) ↦ absurd (h (ground (arith, bad)))
  | inl (u, good) ↦ (good, λ e. h (ground (arith, good, e)))
]

db_first :
    {W A : Type 0} (k : Handler W A) (state : AppState W)
    → Reaches (require_db >> k) state
    → (state.has_db ≡ true) × Reaches k state
unfolding require_db ◌>>=◌
db_first k state h = elim (Bool-cases state.has_db) [
  | inr off ↦ absurd (h (ground (arith, off)))
  | inl on ↦ (on, λ e. h (ground (arith, on, e)))
]

with_db_first :
    {W A : Type 0} (c : Check) (k : Handler W A) (state : AppState W)
    → Reaches (with_db c k) state
    → Passes c × (state.has_db ≡ true) × Reaches k state
unfolding with_db
with_db_first c k state h =
    let (passes, h1) = check_first c (require_db >> k) state h in
    let (on, h2) = db_first k state h1 in (passes, on, h2)

-- What comes last and changes nothing does not count.
pure_last :
    {W A B : Type 0} (m : Handler W A) (f : A → B) (state : AppState W)
    → Reaches (m >>= λ a. pure (f a)) state
    → Reaches m state
unfolding ◌>>=◌
pure_last m f state h = elim (Result-cases (m state).0) [
  | inr (e, bad) ↦ λ same. h (ground (arith, bad, same))
  | inl (a, good) ↦ λ same. h (ground (arith, good, same))
]

module _ {W E : Type 0} (services : Services W E) (req : HttpRequest) where
  get-Reaches :
      (q : GetParams) (state : AppState W)
      → Reaches (get_kv_handler services q) state
      → GetFits q × (state.has_db ≡ true)
  unfolding get_kv_handler
  get-Reaches q state h =
      let (passes, on, rest) = with_db_first (Checks.get_checks q) _ state h in
      (Passing.get_checks-GetFits q passes, on)

  query-Reaches :
      (q : QueryParams) (state : AppState W)
      → Reaches (query_kv_handler services q) state
      → QueryFits q × (state.has_db ≡ true)
  unfolding query_kv_handler
  query-Reaches q state h =
      let (passes, on, rest) = with_db_first (Checks.query_checks q) _ state h in
      (Passing.query_checks-QueryFits q passes, on)

  history-Reaches :
      (q : HistoryParams) (state : AppState W)
      → Reaches (history_kv_handler services q) state
      → HistoryFits q × (state.has_db ≡ true)
  unfolding history_kv_handler
  history-Reaches q state h =
      let (passes, on, rest) = with_db_first (Checks.history_checks q) _ state h in
      (Passing.history_checks-HistoryFits q passes, on)

  writers-Reaches :
      (q : WritersParams) (state : AppState W)
      → Reaches (writers_handler services q) state
      → WritersFits q × (state.has_db ≡ true)
  unfolding writers_handler
  writers-Reaches q state h =
      let (passes, on, rest) = with_db_first (Checks.writers_checks q) _ state h in
      (Passing.writers_checks-WritersFits q passes, on)

  diff-Reaches :
      (q : DiffParams) (state : AppState W)
      → Reaches (diff_kv_handler services q) state
      → DiffFits q × (state.has_db ≡ true)
  unfolding diff_kv_handler
  diff-Reaches q state h =
      let (passes, on, rest) = with_db_first (Checks.diff_checks q) _ state h in
      (Passing.diff_checks-DiffFits q passes, on)

  timeline-Reaches :
      (q : TimelineParams) (state : AppState W)
      → Reaches (timeline_kv_handler services q) state
      → TimelineFits q × (state.has_db ≡ true)
  unfolding timeline_kv_handler
  timeline-Reaches q state h =
      let (passes, on, rest) = with_db_first (Checks.timeline_checks q) _ state h in
      (Passing.timeline_checks-TimelineFits q passes, on)

  batch-Reaches :
      (q : BatchQuery) (state : AppState W)
      → Reaches (batch_kv_handler services q) state
      → BatchFits q × (state.has_db ≡ true)
  unfolding batch_kv_handler
  batch-Reaches q state h =
      let (passes, on, rest) = with_db_first (Checks.batch_checks q) _ state h in
      (Passing.batch_checks-BatchFits q passes, on)

  edges-Reaches :
      (q : EdgesParams) (state : AppState W)
      → Reaches (edges_handler services q) state
      → EdgesFits q × (state.has_db ≡ true)
  unfolding edges_handler
  edges-Reaches q state h =
      let (passes, on, rest) = with_db_first (Checks.edges_checks q) _ state h in
      (Passing.edges_checks-EdgesFits q passes, on)

  edges_count-Reaches :
      (q : EdgesCountParams) (state : AppState W)
      → Reaches (edges_count_handler services q) state
      → EdgesCountFits q × (state.has_db ≡ true)
  unfolding edges_count_handler
  edges_count-Reaches q state h =
      let (passes, on, rest) = with_db_first (Checks.edges_count_checks q) _ state h in
      (Passing.edges_count_checks-EdgesCountFits q passes, on)

  health-Reaches :
      (state : AppState W) → Reaches (health_check_handler services) state → state.has_db ≡ true
  unfolding health_check_handler
  health-Reaches state h = elim (Bool-cases state.has_db) [
    | inl on ↦ on
    | inr off ↦ absurd (h (ground (arith, off)))
  ]

  status-Reaches :
      (state : AppState W) → Reaches (status_handler services req) state → state.has_db ≡ true
  unfolding status_handler
  status-Reaches state h = elim (Bool-cases state.has_db) [
    | inl on ↦ on
    | inr off ↦ absurd (h (ground (arith, off)))
  ]

  -- A step that leaves the world and the database alone comes first.
  quiet_first :
      {A B : Type 0} (m : Handler W A) (k : A → Handler W B) (state : AppState W)
      → (m state).1.world ≡ state.world
      → Reaches (m >>= k) state
      → (a : A) × ((m state).0 ≡ ok a) × Reaches (k a) (m state).1
  unfolding ◌>>=◌
  quiet_first m k state quiet h = elim (Result-cases (m state).0) [
    | inr (e, bad) ↦ absurd (h (ground (arith, bad, quiet)))
    | inl (a, good) ↦ (a, good, λ e. h (ground (arith, good, quiet, e)))
  ]

  throttle_quiet :
      (query : AccountsQueryParams) (state : AppState W)
      → ((throttle_accounts services req query state).1.world ≡ state.world)
        × ((throttle_accounts services req query state).1.has_db ≡ state.has_db)
  unfolding throttle_accounts throttle_scan
  throttle_quiet query state = elim (Option-cases query.contract_id) [
    | inl e ↦ (ground (arith, e), ground (arith, e))
    | inr (cid, e) ↦ (ground (arith, e), ground (arith, e))
  ]

  accounts-Reaches :
      (q : AccountsQueryParams) (state : AppState W)
      → Reaches (accounts_handler services req q) state
      → AccountsFits q × (state.has_db ≡ true)
  unfolding accounts_handler
  accounts-Reaches q state h =
      let (passes, h1) =
        check_first (Checks.accounts_checks q)
          (throttle_accounts services req q
            >> (require_db >> list_accounts services q.contract_id q))
          state h in
      let (world, db) = throttle_quiet q state in
      let (u, good, h2) =
        quiet_first (throttle_accounts services req q)
          (λ u. require_db >> list_accounts services q.contract_id q) state world h1 in
      let (on, rest) =
        db_first (list_accounts services q.contract_id q) (throttle_accounts services req q state).1
          h2 in
      (Passing.accounts_checks-AccountsFits q passes, sym db ∙ on)

  list_contracts-Reaches :
      (predecessor_id : Option Str) (q : ContractsQueryParams) (state : AppState W)
      → Reaches (list_contracts services predecessor_id req q) state
      → IfGiven IsAccount predecessor_id
  unfolding list_contracts ◌>>=◌
  list_contracts-Reaches none q state h = tt
  list_contracts-Reaches (some a) q state h =
      elim (Result-cases (validate_account_id a Checks.account)) [
        | inr (why, bad) ↦ absurd (h (ground (arith, bad)))
        | inl (u, good) ↦ (validate_account_id_iff a Checks.account).0 good
      ]

  contracts-Reaches :
      (q : ContractsQueryParams) (state : AppState W)
      → Reaches (contracts_handler services req q) state
      → (ContractsFits q × IfGiven IsAccount q.predecessor_id) × (state.has_db ≡ true)
  unfolding contracts_handler
  contracts-Reaches q state h =
      let (passes, on, rest) = with_db_first (Checks.contracts_checks q) _ state h in
      (
        (
          Passing.contracts_checks-ContractsFits q passes,
          list_contracts-Reaches q.predecessor_id q state
              (pure_last (list_contracts services q.predecessor_id req q) _ state rest),
        ),
        on,
      )

  watch_world :
      (q : WatchParams) (state : AppState W)
      → (watch_kv_handler services q req state).1.world ≡ state.world
  unfolding watch_kv_handler ◌>>=◌
  watch_world q state = elim (Result-cases (Checks.watch_checks q)) [
    | inr (why, bad) ↦ ground (arith, bad)
    | inl (u, good) ↦ elim (Bool-cases state.has_db) [
      | inl on ↦ unfold claim_watch require_db in ground (arith, good, on)
      | inr off ↦ unfold claim_watch require_db release_watch in ground (arith, good, off)
    ]
  ]

  watch_ok :
      (q : WatchParams) (state : AppState W) (reply : HttpResponse (Value services))
      → (watch_kv_handler services q req state).0 ≡ ok reply
      → WatchFits q × (state.has_db ≡ true)
  unfolding watch_kv_handler
  watch_ok q state reply h =
      let (u, passes, h1) = bind_ok _ _ state reply h in
      let (v, claimed, h2) = bind_ok _ _ _ reply h1 in
      elim (Bool-cases state.has_db) [
        | inl on ↦ (Passing.watch_checks-WatchFits q passes, on)
        | inr off ↦ absurd (elim (Bool-cases (leb max_concurrent_watches state.watch_count)) [
          | inl full ↦ unfold claim_watch in ground (arith, full, claimed)
          | inr free ↦ unfold claim_watch require_db in ground (arith, off, free, h2)
        ])
      ]

  watch-Opens :
      (q : WatchParams) (state : AppState W)
      → OpensStream (Route.watch q) (watch_kv_handler services q req state).0
      → WatchFits q × (state.has_db ≡ true)
  watch-Opens q state h = elim (Result-cases (watch_kv_handler services q req state).0) [
    | inr (e, bad) ↦ absurd (subst (OpensStream (Route.watch q)) bad h)
    | inl (reply, good) ↦ watch_ok q state reply good
  ]

  -- A request changes the world of Redis, that is, sends it anything, or opens the stream of a watch, only if the server has a database and all the
  -- parameters fit: account ids of 1 to 256 bytes, keys of 1 to 10,000 (in a batch 1 to 100 keys of
  -- at most 1,024), limits from 1 to 1,000 (for contracts at least 1), no cursor together with an offset, block ranges in
  -- order and not negative. A request without a contract id lists at most 1,000 accounts;
  -- health and status demand nothing, and no social request sends Redis anything.
  pub serve-Fits :
      (route : Route) (state : AppState W)
      → Reaches (serve services req route) state
        ⊎ OpensStream route (serve services req route state).0
      → Fits route × (state.has_db ≡ true)
  unfolding serve social_get_handler social_keys_handler social_index_handler social_profile_handler
      social_followers_handler social_following_handler social_account_feed_handler
  serve-Fits Route.health state (inl h) = (tt, health-Reaches state h)
  serve-Fits Route.health state (inr h) = absurd h
  serve-Fits Route.status state (inl h) = (tt, status-Reaches state h)
  serve-Fits Route.status state (inr h) = absurd h
  serve-Fits (Route.get q) state (inl h) = get-Reaches q state h
  serve-Fits (Route.get q) state (inr h) = absurd h
  serve-Fits (Route.query q) state (inl h) = query-Reaches q state h
  serve-Fits (Route.query q) state (inr h) = absurd h
  serve-Fits (Route.history q) state (inl h) = history-Reaches q state h
  serve-Fits (Route.history q) state (inr h) = absurd h
  serve-Fits (Route.writers q) state (inl h) = writers-Reaches q state h
  serve-Fits (Route.writers q) state (inr h) = absurd h
  serve-Fits (Route.diff q) state (inl h) = diff-Reaches q state h
  serve-Fits (Route.diff q) state (inr h) = absurd h
  serve-Fits (Route.timeline q) state (inl h) = timeline-Reaches q state h
  serve-Fits (Route.timeline q) state (inr h) = absurd h
  serve-Fits (Route.batch q) state (inl h) = batch-Reaches q state h
  serve-Fits (Route.batch q) state (inr h) = absurd h
  serve-Fits (Route.edges q) state (inl h) = edges-Reaches q state h
  serve-Fits (Route.edges q) state (inr h) = absurd h
  serve-Fits (Route.edges_count q) state (inl h) = edges_count-Reaches q state h
  serve-Fits (Route.edges_count q) state (inr h) = absurd h
  serve-Fits (Route.accounts q) state (inl h) = accounts-Reaches q state h
  serve-Fits (Route.accounts q) state (inr h) = absurd h
  serve-Fits (Route.contracts q) state (inl h) = contracts-Reaches q state h
  serve-Fits (Route.contracts q) state (inr h) = absurd h
  serve-Fits (Route.watch q) state (inl h) = absurd (h (watch_world q state))
  serve-Fits (Route.watch q) state (inr h) = watch-Opens q state h
  serve-Fits (Route.social_get q) state (inl h) = absurd (h refl)
  serve-Fits (Route.social_get q) state (inr h) = absurd h
  serve-Fits (Route.social_keys q) state (inl h) = absurd (h refl)
  serve-Fits (Route.social_keys q) state (inr h) = absurd h
  serve-Fits (Route.social_index q) state (inl h) = absurd (h refl)
  serve-Fits (Route.social_index q) state (inr h) = absurd h
  serve-Fits (Route.social_profile q) state (inl h) = absurd (h refl)
  serve-Fits (Route.social_profile q) state (inr h) = absurd h
  serve-Fits (Route.social_followers q) state (inl h) = absurd (h refl)
  serve-Fits (Route.social_followers q) state (inr h) = absurd h
  serve-Fits (Route.social_following q) state (inl h) = absurd (h refl)
  serve-Fits (Route.social_following q) state (inr h) = absurd h
  serve-Fits (Route.social_account_feed q) state (inl h) = absurd (h refl)
  serve-Fits (Route.social_account_feed q) state (inr h) = absurd h
