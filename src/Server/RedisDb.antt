-- ===== src/Server/RedisDb.antt =====
-- fastkv-server/src/redis_db.rs: the queries of the server over the keys that the indexers write.
-- The commands of Redis are parameters.
pub mod Reads
pub mod Timeline
pub mod Sizes
pub mod Heights
pub mod Small
mod Tests
use key_manager.Base.{
  ℕ, ◌+◌, ◌%◌, ◌^◌, Bool, true, false, Option, none, some, List, [], ◌∷◌, ◌++◌, map, Result, ok,
  err, ltb, length, take, last, unwrap_or,
}
use key_manager.Base.Text.{Str, codes, strip_prefix, ◌==ₛ◌}
use key_manager.Base.Decimal.{ℤ, pos, i64_max, show, parse_u64}
use key_manager.Indexer.RedisDb.{Redis, as_i64}
use key_manager.Server.Action.{Action, pure, from_result, ◌>>=◌, ◌>>◌}
use key_manager.Server.Models.{KvEntry}
use key_manager.Server.Models.Params.{QueryParams, WritersParams, HistoryParams, TimelineParams}

pub record StoredKvEntry : Type 0 where
  pub predecessor_id : Str
  pub current_account_id : Str
  pub key : Str
  pub value : Str
  pub block_height : ℕ
  pub block_timestamp : ℕ
  pub receipt_id : Str
  pub tx_hash : Str

-- `impl From<StoredKvEntry> for KvEntry`
unfoldable pub from_stored : StoredKvEntry → KvEntry
from_stored s = record {
  predecessor_id = s.predecessor_id;
  current_account_id = s.current_account_id;
  key = s.key;
  value = s.value;
  block_height = s.block_height;
  block_timestamp = s.block_timestamp;
  receipt_id = s.receipt_id;
  tx_hash = s.tx_hash;
  is_deleted = s.value ==ₛ codes "null";
}

pub record EdgeSourceEntry : Type 0 where
  pub source : Str
  pub block_height : ℕ

-- The formats of the keys.
unfoldable pub kv_prefix : Str → Str → Str
kv_prefix predecessor_id current_account_id =
    codes "kv:" ++ (predecessor_id ++ b':' ∷ (current_account_id ++ b':' ∷ []))

unfoldable pub kv_key : Str → Str → Str → Str
kv_key predecessor_id current_account_id key =
    codes "kv:" ++ (predecessor_id ++ b':' ∷ (current_account_id ++ b':' ∷ key))

unfoldable pub history_key : Str → Str → Str → Str
history_key predecessor_id current_account_id key =
    codes "history:" ++ (predecessor_id ++ b':' ∷ (current_account_id ++ b':' ∷ key))

unfoldable pub accounts_key : Str → Str
accounts_key current_account_id = codes "accounts:" ++ current_account_id

unfoldable pub contracts_key : Str → Str
contracts_key predecessor_id = codes "contracts:" ++ predecessor_id

unfoldable pub meta_key : Str → Str
meta_key suffix = codes "meta:" ++ suffix

-- The commands that only the server sends, and serde_json on its entries. `scan p n` is the first
-- page of `SCAN 0 MATCH p COUNT n`. The reply to `ZRANGEBYSCORE … WITHSCORES` is a list of members,
-- each with its score, as texts; `int_from_value` is the crate's conversion of a text to an i64.
pub record Queries (W E : Type 0) : Type 0 where
  pub ping : Action W E (Unit {0})
  pub scan : Str → ℤ → Action W E (List Str)
  pub smembers : Str → Action W E (List Str)
  pub zrangebyscore_withscores : Str → ℤ → ℤ → Action W E (List (Str × Str))
  pub int_from_value : Str → Result ℤ E
  pub stored_from_str : Str → Result StoredKvEntry E
  pub stored_to_string : StoredKvEntry → Result Str E

-- `n as i64` of a usize, after an addition that wraps around
abbrev pub count_of : ℕ → ℤ
count_of n = as_i64 (n % 2 ^ 64)

-- The names in the keys with a prefix: `filter_map(|k| k.strip_prefix(p))`
unfoldable pub stripped : Str → List Str → List Str
stripped prefix [] = []
stripped prefix (k ∷ ks) =
    let rest = stripped prefix ks in
    elim (strip_prefix k prefix) [ none ↦ rest | some s ↦ s ∷ rest ]

module _ {W E : Type 0} (redis : Redis W E) (queries : Queries W E) (chain_id : Str) where
  open redis use {connect, get, set, zadd, sadd}
  open queries use {
    ping, scan, smembers, zrangebyscore_withscores, int_from_value, stored_from_str,
    stored_to_string,
  }

  unfoldable pub health_check : Action W E (Unit {0})
  health_check = do connect; ping; pure tt

  unfoldable pub get_kv : Str → Str → Str → Action W E (Option KvEntry)
  get_kv predecessor_id current_account_id key = do
    connect
    found ← get (kv_key predecessor_id current_account_id key)
    elim found [
      | none ↦ pure none
      | some json ↦ do stored ← from_result (stored_from_str json); pure (some (from_stored stored))
    ]

  unfoldable pub get_kv_last : Str → Str → Str → Action W E (Option KvEntry)
  unfolding get_kv
  get_kv_last predecessor_id current_account_id key = get_kv predecessor_id current_account_id key

  -- What is found under a key and can be read.
  unfoldable pub readable : Option Str → List KvEntry
  readable none = []
  readable (some json) = elim (stored_from_str json) [
    | ok stored ↦ from_stored stored ∷ []
    | err e ↦ []
  ]

  -- the loop over the keys
  unfoldable pub get_entries : List Str → Action W E (List KvEntry)
  unfolding readable
  get_entries [] = pure []
  get_entries (key ∷ keys) = do
    found ← get key
    entries ← get_entries keys
    pure (readable found ++ entries)

  unfoldable pub query_kv_with_pagination : QueryParams → Action W E (List KvEntry × Bool × ℕ)
  unfolding get_entries
  query_kv_with_pagination params = do
    connect
    keys ←
        scan
          (kv_prefix params.predecessor_id params.current_account_id
            ++ (unwrap_or params.key_prefix [] ++ codes "*"))
          (count_of (params.limit + 1))
    entries ← get_entries (take params.limit keys)
    pure (entries, ltb params.limit (length keys), 0)

  unfoldable pub query_writers : WritersParams → Action W E (List KvEntry × Bool × Bool × ℕ)
  unfolding get_entries
  query_writers params = do
    connect
    keys ←
        scan
          (codes "kv:"
            ++ (unwrap_or params.predecessor_id (codes "*")
                ++ b':' ∷ (params.current_account_id ++ b':' ∷ (params.key ++ codes "*"))))
          (count_of (params.limit + 1))
    entries ← get_entries (take params.limit keys)
    pure (entries, ltb params.limit (length keys), false, 0)

  unfoldable pub query_accounts_by_contract :
      Str → Option Str → ℕ → ℕ → Option Str → Action W E (List Str × Bool × Bool × ℕ)
  query_accounts_by_contract contract_id key limit offset after_account = do
    connect
    members ← smembers (accounts_key contract_id)
    pure (take limit members, ltb limit (length members), false, 0)

  unfoldable pub query_all_accounts : ℕ → Option Str → Action W E (List Str × Bool × ℕ)
  unfolding stripped
  query_all_accounts limit after_account = do
    connect
    keys ← scan (codes "accounts:*") (count_of limit)
    pure (take limit (stripped (codes "accounts:") keys), false, 0)

  unfoldable pub query_contracts_by_account :
      Str → ℕ → Option Str → Action W E (List Str × Bool × ℕ)
  query_contracts_by_account account_id limit after_contract = do
    connect
    members ← smembers (contracts_key account_id)
    pure (take limit members, ltb limit (length members), 0)

  unfoldable pub query_all_contracts : ℕ → Option Str → Action W E (List Str × Bool × ℕ)
  unfolding stripped
  query_all_contracts limit after_contract = do
    connect
    keys ← scan (codes "contracts:*") (count_of limit)
    pure (take limit (stripped (codes "contracts:") keys), false, 0)

  -- The reply as the `Vec<(i64, String)>` that the code asks for: the first of each pair as a number.
  unfoldable pub pairs_from_value : List (Str × Str) → Result (List (ℤ × Str)) E
  pairs_from_value [] = ok []
  pairs_from_value (pair ∷ pairs) = elim (int_from_value pair.0) [
    | err e ↦ err e
    | ok n ↦ elim (pairs_from_value pairs) [ err e ↦ err e | ok rest ↦ ok ((n, pair.1) ∷ rest) ]
  ]

  unfoldable pub zrange : Str → ℤ → ℤ → Action W E (List (ℤ × Str))
  unfolding pairs_from_value
  zrange key start end = do
    reply ← zrangebyscore_withscores key start end
    from_result (pairs_from_value reply)

  unfoldable pub get_kv_at_block : Str → Str → Str → ℕ → Action W E (Option KvEntry)
  unfolding get_kv zrange
  get_kv_at_block predecessor_id current_account_id key block_height = do
    connect
    entries ←
        zrange (history_key predecessor_id current_account_id key) (pos 0) (as_i64 block_height)
    elim (last entries) [
      | some scored ↦ do
        stored ← from_result (stored_from_str scored.1)
        pure (some (from_stored stored))
      | none ↦ get_kv predecessor_id current_account_id key
    ]

  -- `filter_map` over the members of a history
  unfoldable pub read_history : List (ℤ × Str) → List KvEntry
  unfolding readable
  read_history [] = []
  read_history (scored ∷ entries) = readable (some scored.1) ++ read_history entries

  unfoldable pub get_kv_history :
      HistoryParams → Action W E (List KvEntry × Bool × Bool × Option Str)
  unfolding read_history zrange
  get_kv_history params = do
    connect
    entries ←
        zrange (history_key params.predecessor_id params.current_account_id params.key)
          (unwrap_or params.from_block (pos 0)) (unwrap_or params.to_block (pos i64_max))
    pure (read_history (take params.limit entries), ltb params.limit (length entries), false, none)

  unfoldable pub get_kv_timeline :
      TimelineParams → Action W E (List KvEntry × Bool × Bool × ℕ × Option Str)
  unfolding read_history zrange
  get_kv_timeline params = do
    connect
    entries ←
        zrange (history_key params.predecessor_id params.current_account_id [])
          (unwrap_or params.from_block (pos 0)) (unwrap_or params.to_block (pos i64_max))
    pure (
      read_history (take params.limit entries),
      ltb params.limit (length entries),
      false,
      0,
      none,
    )

  -- edges are not stored in Redis
  unfoldable pub query_edges :
      Str → Str → ℕ → ℕ → Option Str → Action W E (List EdgeSourceEntry × Bool × ℕ)
  query_edges edge_type target limit offset after_source = pure ([], false, 0)

  unfoldable pub count_edges : Str → Str → Action W E ℕ
  count_edges edge_type target = pure 0

  -- `height.and_then(|h| h.parse().ok())`
  unfoldable pub get_indexer_block_height : Action W E (Option ℕ)
  get_indexer_block_height = do
    connect
    height ← get (meta_key chain_id)
    pure (elim height [ none ↦ none | some h ↦ parse_u64 h ])

  unfoldable pub to_stored : KvEntry → StoredKvEntry
  to_stored entry = record {
    predecessor_id = entry.predecessor_id;
    current_account_id = entry.current_account_id;
    key = entry.key;
    value = entry.value;
    block_height = entry.block_height;
    block_timestamp = entry.block_timestamp;
    receipt_id = entry.receipt_id;
    tx_hash = entry.tx_hash;
  }

  unfoldable pub set_kv : KvEntry → Action W E (Unit {0})
  unfolding to_stored
  set_kv entry = do
    connect
    json ← from_result (stored_to_string (to_stored entry))
    set (kv_key entry.predecessor_id entry.current_account_id entry.key) json
    sadd (accounts_key entry.current_account_id) entry.predecessor_id
    sadd (contracts_key entry.predecessor_id) entry.current_account_id
    pure tt

  unfoldable pub set_kv_history : Str → Str → Str → KvEntry → Action W E (Unit {0})
  unfolding to_stored
  set_kv_history predecessor_id current_account_id key entry = do
    connect
    json ← from_result (stored_to_string (to_stored entry))
    zadd (history_key predecessor_id current_account_id key) json (as_i64 entry.block_height)
    pure tt

  unfoldable pub set_indexer_block_height : ℕ → Action W E (Unit {0})
  set_indexer_block_height height = do connect; set (meta_key chain_id) (show height); pure tt
