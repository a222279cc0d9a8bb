-- ===== src/Server/Handlers/Routes/Bounds.antt =====
-- How much a reply lists.
use key_manager.Base.{
  ℕ, ◌≤◌, ◌≡◌, refl, subst, ◌⊎◌, inl, inr, Bool, true, false, ◌||◌, Option, none, some, List,
  Result, ok, arith, Result-cases, Bool-cases, length, length-map, map, is_some, if◌then◌else◌,
}
use key_manager.Base.Text.{Str, codes, ◌==ₛ◌}
use key_manager.Server.Json.{Json}
use key_manager.Server.Tree.{build_tree}
use key_manager.Server.Action.{Action, bind_ok}
use key_manager.Server.Validate.{Check}
use key_manager.Server.Validate.Laws.{Passes}
use key_manager.Server.Models.{KvEntry, PaginationMeta, FieldSet}
use key_manager.Server.Models.Params.{QueryParams, WritersParams, HistoryParams, TimelineParams}
use key_manager.Server.Handlers.{
  Services, AppState, Handler, HttpResponse, Body, Value, require_db, with_db, query_db,
  respond_paginated,
}
use key_manager.Server.Handlers.Passing
use key_manager.Server.RedisDb.Sizes.{
  length-query_kv_with_pagination, length-query_writers, length-get_kv_history,
  length-get_kv_timeline,
}
use key_manager.Server.Handlers.Entries.{
  query_kv_handler, history_kv_handler, writers_handler, timeline_kv_handler, reply_with_page,
  key_page, tree_or_page,
}

-- The entries, names or results that a body lists. A tree is no list, and counts as too much here.
abbrev pub listed : {V : Type 0} → Body V → ℕ
listed (Body.page p) = length p.items
listed (Body.page_json p) = length p.items
listed (Body.names p) = length p.items
listed (Body.batch b) = length b.item
listed (Body.edges p) = length p.items
listed (Body.social_index p) = length p.items
listed (Body.social_follow p) = length p.accounts
listed (Body.tree t) = 1001
listed _ = 0

-- At most so many: the items of a list, or the entries that a tree is built from.
abbrev pub ListsAtMost : (j : Json) → ℕ → Body j.Value → Type 0
ListsAtMost j n (Body.tree t) =
    (items : List (Str × Str)) × (t.tree ≡ build_tree j items) × (length items ≤ n)
ListsAtMost j n body = listed body ≤ n

pub listed-ListsAtMost :
    (j : Json) (body : Body j.Value) → listed body ≤ 1000 → ListsAtMost j 1000 body
listed-ListsAtMost j (Body.tree t) h = absurd (omega (arith, h))
listed-ListsAtMost j (Body.entry b) h = h
listed-ListsAtMost j (Body.entry_json b) h = h
listed-ListsAtMost j (Body.page b) h = h
listed-ListsAtMost j (Body.page_json b) h = h
listed-ListsAtMost j (Body.names b) h = h
listed-ListsAtMost j (Body.diff b) h = h
listed-ListsAtMost j (Body.diff_json b) h = h
listed-ListsAtMost j (Body.batch b) h = h
listed-ListsAtMost j (Body.edges b) h = h
listed-ListsAtMost j (Body.edges_count b) h = h
listed-ListsAtMost j (Body.health b) h = h
listed-ListsAtMost j (Body.status b) h = h
listed-ListsAtMost j (Body.event_stream b n) h = h
listed-ListsAtMost j (Body.social_object b) h = h
listed-ListsAtMost j (Body.social_index b) h = h
listed-ListsAtMost j (Body.social_follow b) h = h

pub ok-injective : {A E : Type 0} (a b : A) → let r : Result A E = ok a in r ≡ ok b → a ≡ b
ok-injective a b h = ground (arith, h)

module _ {W E : Type 0} (services : Services W E) where
  pub query_db_ok :
      {A : Type 0} (run : Action W E A) (state : AppState W) (a : A)
      → (query_db run state).0 ≡ ok a
      → (run state.world).0 ≡ ok a
  unfolding query_db
  query_db_ok run state a h = elim (Result-cases (run state.world).0) [
    | inl (b, good) ↦ ground (arith, good, h)
    | inr (e, bad) ↦ absurd (ground (arith, bad, h))
  ]

  pub with_db_ok :
      {A : Type 0} (c : Check) (k : Handler W A) (state : AppState W) (a : A)
      → (with_db c k state).0 ≡ ok a
      → Passes c × ((k state).0 ≡ ok a)
  unfolding with_db require_db
  with_db_ok c k state a h =
      let (u, passes, h1) = bind_ok _ _ state a h in
      let (v, on, h2) = bind_ok _ _ _ a h1 in (passes, h2)

  respond_paginated-listed :
      (entries : List KvEntry) (meta : PaginationMeta) (fields : Option FieldSet) (decode : Bool)
      → listed (respond_paginated services entries meta fields decode).body ≡ length entries
  unfolding respond_paginated
  respond_paginated-listed entries meta fields decode =
      elim (Bool-cases (is_some fields || decode)) [
        | inl e ↦ rw (e) (length-map _ entries)
        | inr e ↦ rw (e) refl
      ]

  reply_with_page-listed :
      (entries : List KvEntry) (meta : PaginationMeta) (fields value_format : Option Str)
      (state : AppState W) (reply : HttpResponse (Value services))
      → (reply_with_page services entries meta fields value_format state).0 ≡ ok reply
      → listed reply.body ≡ length entries
  unfolding reply_with_page
  reply_with_page-listed entries meta fields value_format state reply h =
      let (set, parsed, h1) = bind_ok _ _ state reply h in
      let (decode, decoded, h2) = bind_ok _ _ _ reply h1 in
      let same : respond_paginated services entries meta set decode ≡ reply = ground (arith, h2) in
      subst (λ r. listed r.body ≡ length entries) same
        (respond_paginated-listed entries meta set decode)

  pub either_ok :
      {A : Type 0} (test : Bool) (m k : Handler W A) (state : AppState W) (a : A)
      → ((if test then m else k) state).0 ≡ ok a
      → ((m state).0 ≡ ok a) ⊎ ((k state).0 ≡ ok a)
  either_ok true m k state a h = inl h
  either_ok false m k state a h = inr h

  key_page-listed :
      (q : QueryParams) (entries : List KvEntry) (has_more : Bool) (dropped : ℕ)
      (state : AppState W) (reply : HttpResponse (Value services))
      → (key_page services q entries has_more dropped state).0 ≡ ok reply
      → listed reply.body ≤ length entries
  unfolding key_page
  key_page-listed q entries has_more dropped state reply h =
      omega (arith, reply_with_page-listed entries _ q.fields q.value_format state reply h)

  tree_or_page-listed :
      (format : Option Str) (q : QueryParams) (entries : List KvEntry) (has_more : Bool)
      (dropped : ℕ) (state : AppState W) (reply : HttpResponse (Value services))
      → (tree_or_page services format q entries has_more dropped state).0 ≡ ok reply
      → length entries ≤ 1000
      → ListsAtMost services.json 1000 reply.body
  unfolding tree_or_page
  tree_or_page-listed none q entries has_more dropped state reply h few =
      listed-ListsAtMost services.json reply.body
        (omega (arith, few, key_page-listed q entries has_more dropped state reply h))
  tree_or_page-listed (some format) q entries has_more dropped state reply h few =
      elim (either_ok (format ==ₛ codes "tree") _ _ state reply h) [
        | inl tree ↦
            subst (λ r. ListsAtMost services.json 1000 r.body) (ok-injective _ reply tree)
              (
                map (λ e. (e.key, e.value)) entries,
                refl,
                omega (arith, few, length-map {B = Str × Str} (λ e. (e.key, e.value)) entries),
              )
        | inr page ↦
            listed-ListsAtMost services.json reply.body
              (omega (arith, few, key_page-listed q entries has_more dropped state reply page))
      ]

  pub query_listed :
      (q : QueryParams) (state : AppState W) (reply : HttpResponse (Value services))
      → (query_kv_handler services q state).0 ≡ ok reply
      → ListsAtMost services.json 1000 reply.body
  unfolding query_kv_handler
  query_listed q state reply h =
      let (passes, h1) = with_db_ok _ _ state reply h in
      let (found, got, h2) = bind_ok _ _ state reply h1 in
      let few =
        length-query_kv_with_pagination services.redis services.queries services.chain_id q
          state.world found (query_db_ok _ state found got) in
      let fits = Passing.query_checks-QueryFits q passes in
      tree_or_page-listed q.format q found.0 found.1 found.2 _ reply h2
        (omega (arith, few, fits.2.1))

  pub history_listed :
      (q : HistoryParams) (state : AppState W) (reply : HttpResponse (Value services))
      → (history_kv_handler services q state).0 ≡ ok reply
      → listed reply.body ≤ 1000
  unfolding history_kv_handler
  history_listed q state reply h =
      let (passes, h1) = with_db_ok _ _ state reply h in
      let (found, got, h2) = bind_ok _ _ state reply h1 in
      let few =
        length-get_kv_history services.redis services.queries services.chain_id q state.world found
          (query_db_ok _ state found got) in
      let page = reply_with_page-listed found.0 _ q.fields q.value_format _ reply h2 in
      let fits = Passing.history_checks-HistoryFits q passes in omega (arith, few, page, fits.3.1)

  pub writers_listed :
      (q : WritersParams) (state : AppState W) (reply : HttpResponse (Value services))
      → (writers_handler services q state).0 ≡ ok reply
      → listed reply.body ≤ 1000
  unfolding writers_handler
  writers_listed q state reply h =
      let (passes, h1) = with_db_ok _ _ state reply h in
      let (found, got, h2) = bind_ok _ _ state reply h1 in
      let few =
        length-query_writers services.redis services.queries services.chain_id q state.world found
          (query_db_ok _ state found got) in
      let page = reply_with_page-listed found.0 _ q.fields q.value_format _ reply h2 in
      let fits = Passing.writers_checks-WritersFits q passes in omega (arith, few, page, fits.2.1)

  pub timeline_listed :
      (q : TimelineParams) (state : AppState W) (reply : HttpResponse (Value services))
      → (timeline_kv_handler services q state).0 ≡ ok reply
      → listed reply.body ≤ 1000
  unfolding timeline_kv_handler
  timeline_listed q state reply h =
      let (passes, h1) = with_db_ok _ _ state reply h in
      let (found, got, h2) = bind_ok _ _ state reply h1 in
      let few =
        length-get_kv_timeline services.redis services.queries services.chain_id q state.world found
          (query_db_ok _ state found got) in
      let page = reply_with_page-listed found.0 _ q.fields q.value_format _ reply h2 in
      let fits = Passing.timeline_checks-TimelineFits q passes in omega (arith, few, page, fits.2.1)
