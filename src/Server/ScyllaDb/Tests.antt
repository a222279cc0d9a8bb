-- ===== src/Server/ScyllaDb/Tests.antt =====
-- A session with the contracts of one account, and runs of its queries.
use key_manager.Base.{
  ℕ, ◌≡◌, refl, ◌↔◌, none, some, List, [], ◌∷◌, ok, err, ltb, length, take, true, false,
}
use key_manager.Base.Text.{Str, codes, ◌==ₛ◌}
use key_manager.Base.Decimal.{ℤ, pos}
use key_manager.Server.Models.{KvEntry}
use key_manager.Server.Page.{collect_page}
use key_manager.Server.Prefix.{before}
use key_manager.Server.ScyllaDb.{
  Session, Stream, query_contracts_by_account, query_accounts_by_contract, validate_identifier,
}
use key_manager.Server.ScyllaDb.Blocks.{block_range, history_behind}
use key_manager.Server.ScyllaDb.Contracts.{
  Ordered, Ascending, Among, Listed, IsBehind, query_contracts_by_account_lem,
}

-- Two keys of one contract, a row that cannot be read, and two other contracts.
abbrev rows : Stream Str Str
rows =
    ok (codes "a.near")
    ∷ ok (codes "b.near")
    ∷ ok (codes "b.near")
    ∷ err (codes "no row")
    ∷ ok (codes "c.near")
    ∷ ok (codes "d.near")
    ∷ []

abbrev session : Session Str
session = record {
  KvRow = KvEntry;
  row_value = λ r. r.value;
  row_predecessor_id = λ r. r.predecessor_id;
  row_entry = λ r. r;
  KvHistoryRow = ℤ × KvEntry;
  history_block_height = λ r. pos (r.1.block_height);
  history_order_id = λ r. r.0;
  history_entry = λ r. r.1;
  KvTimelineRow = KvEntry;
  timeline_block_height = λ r. pos (r.block_height);
  timeline_key = λ r. r.key;
  timeline_entry = λ r. r;
  anyhow = λ message. message;
  select_kv = λ p c k. ok [];
  select_kv_last = λ p c k. ok [];
  query_kv_no_prefix = λ p c. ok [];
  query_kv_cursor = λ p c k. ok [];
  prefix_query = λ p c from to. ok [];
  prefix_cursor_query = λ p c from to. ok [];
  reverse_list = λ c k. ok [];
  reverse_list_cursor = λ c k p. ok [];
  accounts_by_contract =
      λ c. ok (ok (codes "bob.near") ∷ ok (codes "al.near") ∷ ok (codes "bob.near") ∷ []);
  accounts_by_contract_key = λ c k. ok [];
  accounts_all = ok [];
  accounts_all_cursor = λ c. ok [];
  contracts_all = ok [];
  contracts_all_cursor = λ c. ok [];
  contracts_by_account = λ p. ok rows;
  edges_list = λ e t. ok [];
  edges_list_cursor = λ e t s. ok [];
  edges_count = λ e t. ok [];
  select_at_block = λ p c k b. ok [];
  history_asc = λ p c k from to. ok [];
  history_desc = λ p c k from to. ok [];
  timeline_asc = λ p c from to. ok [];
  timeline_desc = λ p c from to. ok [];
  meta_query = λ suffix. ok [];
}

rows-Ordered : Ordered [] rows
unfolding before
rows-Ordered = (refl, (refl, (refl, (refl, (refl, tt)))))

query_contracts_by_account_lem_example :
    (contracts : List Str) × (dropped_rows : ℕ) × (query_contracts_by_account session
        (codes "al.near")
        1
        (some (codes "a.near"))
      ≡ ok (take 1 contracts, ltb 1 (length contracts), dropped_rows))
    × Ascending (some (codes "a.near")) contracts
    × ((x : Str) → Among x contracts ↔ (Listed x rows × IsBehind (some (codes "a.near")) x))
query_contracts_by_account_lem_example =
    query_contracts_by_account_lem session (codes "al.near") 1 (some (codes "a.near")) rows refl
      rows-Ordered

second_page :
    query_contracts_by_account session (codes "al.near") 1 (some (codes "a.near"))
    ≡ ok (codes "b.near" ∷ [], true, 1)
unfolding query_contracts_by_account collect_page before ◌==ₛ◌
second_page = refl

-- Without a key each account counts once.
both_accounts :
    query_accounts_by_contract session (codes "c.near") none 5 0 none
    ≡ ok (codes "bob.near" ∷ codes "al.near" ∷ [], false, false, 0)
unfolding query_accounts_by_contract ◌==ₛ◌
both_accounts = refl

injection :
    validate_identifier (codes "s_kv;") (codes "TABLE_NAME")
    ≡ err (codes "TABLE_NAME must contain only alphanumeric characters and underscores: s_kv;")
unfolding validate_identifier
injection = refl

resumed : block_range false (some (pos 3)) none (some (pos 9)) ≡ (pos 3, pos 9)
unfolding block_range
resumed = refl

same_block : history_behind false (some (pos 9, pos 4)) (pos 9) (pos 4) ≡ false
unfolding history_behind
same_block = refl
