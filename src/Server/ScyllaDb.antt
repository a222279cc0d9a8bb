-- ===== src/Server/ScyllaDb.antt =====
-- fastkv-server/src/scylladb.rs: the queries of the back end of ScyllaDB, each of which collects a
-- page from the stream of a prepared statement. The session, its statements and the row types, which
-- models.rs no longer has, are parameters.
pub mod Scans
pub mod Blocks
pub mod Contracts
mod Tests
use key_manager.Base.{
  ℕ, ◌+◌, Bool, true, false, ◌&&◌, ◌||◌, not, Option, none, some, List, [], ◌∷◌, ◌++◌, Result, ok,
  err, ◌>>=◌, ◌>>◌, refuse, length, take, drop, ltb, leb, ◌==◌, is_some, is_empty, all, unwrap_or,
  if◌then◌else◌,
}
use key_manager.Base.Text.{Str, codes, is_ascii_alphanumeric, ◌==ₛ◌}
use key_manager.Base.Decimal.{ℤ}
use key_manager.Server.Models.{KvEntry, bigint_to_u64, contains}
use key_manager.Server.Models.Params.{QueryParams, WritersParams, AccountsParams}
use key_manager.Server.RedisDb.{EdgeSourceEntry}
use key_manager.Server.Page.{PageResult, collect_page}
use key_manager.Server.Prefix.{compute_prefix_end, effective_offset}
use key_manager.Server.ScyllaDb.Scans.{
  Accounts, scan_accounts, skip_cursor, Distinct, distinct, start_distinct, is_cursor, not_after,
}

unfoldable pub validate_identifier : Str → Str → Result (Unit {0}) Str
validate_identifier name label =
    refuse (is_empty name || not (all (λ c. is_ascii_alphanumeric c || c == b'_') name))
      (label ++ (codes " must contain only alphanumeric characters and underscores: " ++ name))

-- What a statement yields row by row.
abbrev pub Stream : Type 0 → Type 0 → Type 0
Stream R E = List (Result R E)

-- The fields of the rows that the queries read, their conversions to entries, and the prepared
-- statements of the session with the values that they bind. `anyhow` is the error of a message.
pub record Session (E : Type 0) : Type 1 where
  pub KvRow : Type 0
  pub row_value : KvRow → Str
  pub row_predecessor_id : KvRow → Str
  pub row_entry : KvRow → KvEntry
  pub KvHistoryRow : Type 0
  pub history_block_height : KvHistoryRow → ℤ
  pub history_order_id : KvHistoryRow → ℤ
  pub history_entry : KvHistoryRow → KvEntry
  pub KvTimelineRow : Type 0
  pub timeline_block_height : KvTimelineRow → ℤ
  pub timeline_key : KvTimelineRow → Str
  pub timeline_entry : KvTimelineRow → KvEntry
  pub anyhow : Str → E
  pub select_kv : Str → Str → Str → Result (Stream KvRow E) E
  pub select_kv_last : Str → Str → Str → Result (Stream (Option Str) E) E
  pub query_kv_no_prefix : Str → Str → Result (Stream KvRow E) E
  pub query_kv_cursor : Str → Str → Str → Result (Stream KvRow E) E
  pub prefix_query : Str → Str → Str → Str → Result (Stream KvRow E) E
  pub prefix_cursor_query : Str → Str → Str → Str → Result (Stream KvRow E) E
  pub reverse_list : Str → Str → Result (Stream KvRow E) E
  pub reverse_list_cursor : Str → Str → Str → Result (Stream KvRow E) E
  pub accounts_by_contract : Str → Result (Stream Str E) E
  pub accounts_by_contract_key : Str → Str → Result (Stream Str E) E
  pub accounts_all : Result (Stream Str E) E
  pub accounts_all_cursor : Str → Result (Stream Str E) E
  pub contracts_all : Result (Stream Str E) E
  pub contracts_all_cursor : Str → Result (Stream Str E) E
  pub contracts_by_account : Str → Result (Stream Str E) E
  pub edges_list : Str → Str → Result (Stream (Str × ℤ) E) E
  pub edges_list_cursor : Str → Str → Str → Result (Stream (Str × ℤ) E) E
  pub edges_count : Str → Str → Result (Stream ℤ E) E
  pub select_at_block : Str → Str → Str → ℤ → Result (Stream KvHistoryRow E) E
  pub history_asc : Str → Str → Str → ℤ → ℤ → Result (Stream KvHistoryRow E) E
  pub history_desc : Str → Str → Str → ℤ → ℤ → Result (Stream KvHistoryRow E) E
  pub timeline_asc : Str → Str → ℤ → ℤ → Result (Stream KvTimelineRow E) E
  pub timeline_desc : Str → Str → ℤ → ℤ → Result (Stream KvTimelineRow E) E
  pub meta_query : Str → Result (Stream ℤ E) E

-- `.next().transpose()`
unfoldable pub first_row {ℓ} : {R : Type ℓ} {E : Type ℓ} → List (Result R E) → Result (Option R) E
first_row [] = ok none
first_row (ok row ∷ rows) = ok (some row)
first_row (err e ∷ rows) = err e

-- a closure that changes no variable
abbrev pub stateless {ℓ} : {R T : Type ℓ} → (R → Option T) → Unit {0} → R → Option T × Unit {0}
stateless transform captured row = (transform row, tt)

abbrev pub page_triple {ℓ} : {T : Type ℓ} → PageResult T → List T × Bool × ℕ
page_triple page = (page.items, page.has_more, page.dropped_rows)

module _ {E : Type 0} (session : Session E) where
  open session use {
    KvRow, row_value, row_predecessor_id, row_entry, select_kv, select_kv_last, query_kv_no_prefix,
    query_kv_cursor, prefix_query, prefix_cursor_query, reverse_list, reverse_list_cursor,
    accounts_by_contract, accounts_by_contract_key, accounts_all, accounts_all_cursor,
    contracts_all, contracts_all_cursor, contracts_by_account, edges_list, edges_list_cursor,
    edges_count, meta_query,
  }

  unfoldable pub get_kv : Str → Str → Str → Result (Option KvEntry) E
  unfolding first_row
  get_kv predecessor_id current_account_id key = do
    rows ← select_kv predecessor_id current_account_id key
    row ← first_row rows
    ok (elim row [ none ↦ none | some r ↦ some (row_entry r) ])

  unfoldable pub get_kv_last : Str → Str → Str → Result (Option Str) E
  unfolding first_row
  get_kv_last predecessor_id current_account_id key = do
    rows ← select_kv_last predecessor_id current_account_id key
    row ← first_row rows
    ok (elim row [ none ↦ none | some value ↦ value ])

  -- The closure of `query_kv_with_pagination`.
  unfoldable pub live_entry : Bool → KvRow → Option KvEntry
  live_entry exclude_deleted row =
      let entry = row_entry row in
      if exclude_deleted && entry.value ==ₛ codes "null" then none else some entry

  -- The statement for the prefix and the cursor.
  unfoldable pub select_keys : Str → Str → Option Str → Option Str → Result (Stream KvRow E) E
  unfolding compute_prefix_end
  select_keys p c (some prefix) (some cursor) =
      prefix_cursor_query p c cursor (compute_prefix_end prefix)
  select_keys p c (some prefix) none = prefix_query p c prefix (compute_prefix_end prefix)
  select_keys p c none (some cursor) = query_kv_cursor p c cursor
  select_keys p c none none = query_kv_no_prefix p c

  unfoldable pub query_kv_with_pagination : QueryParams → Result (List KvEntry × Bool × ℕ) E
  unfolding select_keys live_entry effective_offset
  query_kv_with_pagination params = do
    stream ←
        select_keys params.predecessor_id params.current_account_id params.key_prefix
          params.after_key
    ok (
        page_triple (
          collect_page params.limit (effective_offset params.after_key params.offset) none
            (stateless (live_entry (unwrap_or params.exclude_deleted false))) tt stream))

  -- The statement for the writers of a key behind the cursor.
  unfoldable pub select_writers : Str → Str → Option Str → Result (Stream KvRow E) E
  select_writers contract key (some cursor) = reverse_list_cursor contract key cursor
  select_writers contract key none = reverse_list contract key

  unfoldable pub writer_entry : Option Str → Bool → KvRow → Option KvEntry
  unfolding live_entry
  writer_entry none exclude_deleted row = live_entry exclude_deleted row
  writer_entry (some pred) exclude_deleted row =
      let entry = row_entry row in
      if not (entry.predecessor_id ==ₛ pred) then none else live_entry exclude_deleted row

  unfoldable pub query_writers : WritersParams → Result (List KvEntry × Bool × Bool × ℕ) E
  unfolding select_writers writer_entry effective_offset
  query_writers params = do
    stream ← select_writers params.current_account_id params.key params.after_account
    (let page =
          collect_page params.limit (effective_offset params.after_account params.offset) none
            (stateless
              (writer_entry params.predecessor_id (unwrap_or params.exclude_deleted false)))
            tt stream in
        ok (page.items, page.has_more, page.truncated, page.dropped_rows))

  unfoldable pub account_of : Bool → KvRow → Option Str
  account_of exclude_deleted row =
      if exclude_deleted && row_value row ==ₛ codes "null"
      then none
      else some (row_predecessor_id row)

  unfoldable pub query_accounts : AccountsParams → Result (List Str × Bool × ℕ) E
  unfolding select_writers account_of effective_offset
  query_accounts params = do
    stream ← select_writers params.current_account_id params.key params.after_account
    ok (
        page_triple (
          collect_page params.limit (effective_offset params.after_account params.offset) none
            (stateless (account_of (unwrap_or params.exclude_deleted false))) tt stream))

  unfoldable pub query_accounts_by_contract :
      Str → Option Str → ℕ → ℕ → Option Str → Result (List Str × Bool × Bool × ℕ) E
  unfolding scan_accounts
  query_accounts_by_contract contract_id key limit offset after_account = do
    stream ← elim key [
      | some k ↦ accounts_by_contract_key contract_id k
      | none ↦ accounts_by_contract contract_id
    ]
    (let v =
          scan_accounts (not (is_some key)) (offset + limit + 1) after_account stream
            (record { seen = []; accounts = []; truncated = false; dropped_rows = 0 }) in
        let result = if is_some after_account then v.accounts else drop offset v.accounts in
        ok (take limit result, ltb limit (length result), v.truncated, v.dropped_rows))

  unfoldable pub query_all_accounts : ℕ → Option Str → Result (List Str × Bool × ℕ) E
  unfolding skip_cursor
  query_all_accounts limit after_account = do
    stream ← elim after_account [ some cursor ↦ accounts_all_cursor cursor | none ↦ accounts_all ]
    ok (page_triple (collect_page limit 0 none (skip_cursor after_account) false stream))

  unfoldable pub query_all_contracts : ℕ → Option Str → Result (List Str × Bool × ℕ) E
  unfolding distinct
  query_all_contracts limit after_contract = do
    stream ← elim after_contract [
      | some cursor ↦ contracts_all_cursor cursor
      | none ↦ contracts_all
    ]
    ok (
        page_triple (
          collect_page limit 0 none (distinct (is_cursor after_contract))
            (start_distinct after_contract) stream))

  unfoldable pub query_contracts_by_account : Str → ℕ → Option Str → Result (List Str × Bool × ℕ) E
  unfolding distinct not_after
  query_contracts_by_account account_id limit after_contract = do
    stream ← contracts_by_account account_id
    ok (
        page_triple (
          collect_page limit 0 none (distinct (not_after after_contract))
            (start_distinct after_contract) stream))

  unfoldable pub edge_entry : Str × ℤ → EdgeSourceEntry
  unfolding bigint_to_u64
  edge_entry row = record { source = row.0; block_height = bigint_to_u64 row.1 }

  unfoldable pub query_edges :
      Str → Str → ℕ → ℕ → Option Str → Result (List EdgeSourceEntry × Bool × ℕ) E
  unfolding edge_entry effective_offset
  query_edges edge_type target limit offset after_source = do
    stream ← elim after_source [
      | some cursor ↦ edges_list_cursor edge_type target cursor
      | none ↦ edges_list edge_type target
    ]
    ok (
        page_triple (
          collect_page limit (effective_offset after_source offset) none
            (stateless (λ row. some (edge_entry row))) tt stream))

  -- `row.0.max(0)`, 0 for no row
  unfoldable pub count_edges : Str → Str → Result ℕ E
  unfolding first_row bigint_to_u64
  count_edges edge_type target = do
    rows ← edges_count edge_type target
    row ← first_row rows
    ok (elim row [ none ↦ 0 | some n ↦ bigint_to_u64 n ])

  unfoldable pub get_indexer_block_height : Result (Option ℕ) E
  unfolding first_row bigint_to_u64
  get_indexer_block_height = do
    rows ← meta_query (codes "kv-1")
    row ← first_row rows
    ok (elim row [ none ↦ none | some n ↦ some (bigint_to_u64 n) ])
