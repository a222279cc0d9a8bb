-- ===== src/Server/RedisDb/Sizes.antt =====
-- The queries return at most as many entries as the limit.
use key_manager.Base.{
  ℕ, suc, ◌≤◌, ◌≡◌, subst, inl, inr, Bool, Option, none, some, List, [], ◌∷◌, ◌++◌, ok, arith,
  Result-cases, length, take, length-append, length-take,
}
use key_manager.Base.Text.{Str, codes}
use key_manager.Base.Decimal.{ℤ}
use key_manager.Indexer.RedisDb.{Redis}
use key_manager.Server.Action.{bind_ok}
use key_manager.Server.Models.{KvEntry}
use key_manager.Server.Models.Params.{QueryParams, WritersParams, HistoryParams, TimelineParams}
use key_manager.Server.RedisDb.{
  Queries, get_entries, readable, read_history, query_kv_with_pagination, query_writers,
  get_kv_history, get_kv_timeline, query_accounts_by_contract, query_all_accounts,
  query_contracts_by_account, query_all_contracts, stripped,
}

module _ {W E : Type 0} (redis : Redis W E) (queries : Queries W E) (chain_id : Str) where
  length-readable : (found : Option Str) → length (readable redis queries chain_id found) ≤ 1
  unfolding readable
  length-readable none = omega arith
  length-readable (some json) = elim (Result-cases (queries.stored_from_str json)) [
    | inl (s, good) ↦ ground (arith, good)
    | inr (e, bad) ↦ ground (arith, bad)
  ]

  length-get_entries :
      (keys : List Str) (w : W) (entries : List KvEntry)
      → (get_entries redis queries chain_id keys w).0 ≡ ok entries
      → length entries ≤ length keys
  unfolding get_entries
  length-get_entries [] w entries h = ground (arith, h)
  length-get_entries (key ∷ keys) w entries h =
      let (found, got, h1) = bind_ok _ _ w entries h in
      let (more, rest, h2) = bind_ok _ _ _ entries h1 in
      let few = length-get_entries keys _ more rest in
      let one = length-readable found in
      let split = length-append (readable redis queries chain_id found) more in
      let whole : readable redis queries chain_id found ++ more ≡ entries = ground (arith, h2) in
      subst (λ es. length es ≤ suc (length keys)) whole (omega (arith, few, one, split))

  length-read_history :
      (l : List (ℤ × Str)) → length (read_history redis queries chain_id l) ≤ length l
  unfolding read_history
  length-read_history [] = omega arith
  length-read_history ((z, m) ∷ l) = omega (
    arith,
    length-read_history l,
    length-readable (some m),
    length-append (readable redis queries chain_id (some m))
        (read_history redis queries chain_id l),
  )

  pub taken : {A : Type 0} (n : ℕ) (xs : List A) → length (take n xs) ≤ n
  taken n xs = omega (arith, length-take n xs)

  pub length-query_kv_with_pagination :
      (q : QueryParams) (w : W) (found : List KvEntry × Bool × ℕ)
      → (query_kv_with_pagination redis queries chain_id q w).0 ≡ ok found
      → length found.0 ≤ q.limit
  unfolding query_kv_with_pagination
  length-query_kv_with_pagination q w found h =
      let (u, connected, h1) = bind_ok _ _ w found h in
      let (keys, scanned, h2) = bind_ok _ _ _ found h1 in
      let (entries, got, h3) = bind_ok _ _ _ found h2 in
      let few = length-get_entries (take q.limit keys) _ entries got in
      let same : entries ≡ found.0 = ground (arith, h3) in
      subst (λ es. length es ≤ q.limit) same (omega (arith, few, taken q.limit keys))

  pub length-query_writers :
      (q : WritersParams) (w : W) (found : List KvEntry × Bool × Bool × ℕ)
      → (query_writers redis queries chain_id q w).0 ≡ ok found
      → length found.0 ≤ q.limit
  unfolding query_writers
  length-query_writers q w found h =
      let (u, connected, h1) = bind_ok _ _ w found h in
      let (keys, scanned, h2) = bind_ok _ _ _ found h1 in
      let (entries, got, h3) = bind_ok _ _ _ found h2 in
      let few = length-get_entries (take q.limit keys) _ entries got in
      let same : entries ≡ found.0 = ground (arith, h3) in
      subst (λ es. length es ≤ q.limit) same (omega (arith, few, taken q.limit keys))

  pub length-get_kv_history :
      (q : HistoryParams) (w : W) (found : List KvEntry × Bool × Bool × Option Str)
      → (get_kv_history redis queries chain_id q w).0 ≡ ok found
      → length found.0 ≤ q.limit
  unfolding get_kv_history
  length-get_kv_history q w found h =
      let (u, connected, h1) = bind_ok _ _ w found h in
      let (entries, ranged, h2) = bind_ok _ _ _ found h1 in
      let same : read_history redis queries chain_id (take q.limit entries) ≡ found.0 =
        ground (arith, h2) in
      subst (λ es. length es ≤ q.limit) same
        (omega (arith, length-read_history (take q.limit entries), taken q.limit entries))

  pub length-get_kv_timeline :
      (q : TimelineParams) (w : W) (found : List KvEntry × Bool × Bool × ℕ × Option Str)
      → (get_kv_timeline redis queries chain_id q w).0 ≡ ok found
      → length found.0 ≤ q.limit
  unfolding get_kv_timeline
  length-get_kv_timeline q w found h =
      let (u, connected, h1) = bind_ok _ _ w found h in
      let (entries, ranged, h2) = bind_ok _ _ _ found h1 in
      let same : read_history redis queries chain_id (take q.limit entries) ≡ found.0 =
        ground (arith, h2) in
      subst (λ es. length es ≤ q.limit) same
        (omega (arith, length-read_history (take q.limit entries), taken q.limit entries))

  pub length-query_accounts_by_contract :
      (contract_id : Str) (key : Option Str) (limit offset : ℕ) (after : Option Str) (w : W)
      (found : List Str × Bool × Bool × ℕ)
      → (query_accounts_by_contract redis queries chain_id contract_id key limit offset after w).0
        ≡ ok found
      → length found.0 ≤ limit
  unfolding query_accounts_by_contract
  length-query_accounts_by_contract contract_id key limit offset after w found h =
      let (u, connected, h1) = bind_ok _ _ w found h in
      let (members, got, h2) = bind_ok _ _ _ found h1 in
      let same : take limit members ≡ found.0 = ground (arith, h2) in
      subst (λ names. length names ≤ limit) same (taken limit members)

  pub length-query_all_accounts :
      (limit : ℕ) (after : Option Str) (w : W) (found : List Str × Bool × ℕ)
      → (query_all_accounts redis queries chain_id limit after w).0 ≡ ok found
      → length found.0 ≤ limit
  unfolding query_all_accounts
  length-query_all_accounts limit after w found h =
      let (u, connected, h1) = bind_ok _ _ w found h in
      let (keys, got, h2) = bind_ok _ _ _ found h1 in
      let same : take limit (stripped (codes "accounts:") keys) ≡ found.0 = ground (arith, h2) in
      subst (λ names. length names ≤ limit) same (taken limit (stripped (codes "accounts:") keys))

  pub length-query_contracts_by_account :
      (account_id : Str) (limit : ℕ) (after : Option Str) (w : W) (found : List Str × Bool × ℕ)
      → (query_contracts_by_account redis queries chain_id account_id limit after w).0 ≡ ok found
      → length found.0 ≤ limit
  unfolding query_contracts_by_account
  length-query_contracts_by_account account_id limit after w found h =
      let (u, connected, h1) = bind_ok _ _ w found h in
      let (members, got, h2) = bind_ok _ _ _ found h1 in
      let same : take limit members ≡ found.0 = ground (arith, h2) in
      subst (λ names. length names ≤ limit) same (taken limit members)

  pub length-query_all_contracts :
      (limit : ℕ) (after : Option Str) (w : W) (found : List Str × Bool × ℕ)
      → (query_all_contracts redis queries chain_id limit after w).0 ≡ ok found
      → length found.0 ≤ limit
  unfolding query_all_contracts
  length-query_all_contracts limit after w found h =
      let (u, connected, h1) = bind_ok _ _ w found h in
      let (keys, got, h2) = bind_ok _ _ _ found h1 in
      let same : take limit (stripped (codes "contracts:") keys) ≡ found.0 = ground (arith, h2) in
      subst (λ names. length names ≤ limit) same (taken limit (stripped (codes "contracts:") keys))
