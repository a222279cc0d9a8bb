-- ===== src/Indexer/RedisDb.antt =====
-- fastdata-indexer/redis_db/src/lib.rs: the keys and writes of the indexers. Redis is a parameter:
-- a state with the commands that the code sends, each of which may fail.
pub mod Keys
pub mod Writes
pub mod Lasts
mod Tests
use key_manager.Base.{
  ℕ, suc, ◌-◌, Option, none, some, List, [], ◌∷◌, ◌++◌, Result, ok, err, ltb, if◌then◌else◌,
  unwrap_or,
}
use key_manager.Base.Text.{Str, codes}
use key_manager.Base.Decimal.{ℤ, pos, negsuc, show, parse_u64}

pub record FastData : Type 0 where
  pub receipt_id : Str
  pub action_index : ℕ
  pub suffix : Str
  pub base64 : Str
  pub tx_hash : Option Str
  pub signer_id : Str
  pub predecessor_id : Str
  pub current_account_id : Str
  pub block_height : ℕ
  pub block_timestamp : ℕ
  pub shard_id : ℕ
  pub receipt_index : ℕ

pub record FastDataKv : Type 0 where
  pub receipt_id : Str
  pub action_index : ℕ
  pub tx_hash : Option Str
  pub signer_id : Str
  pub predecessor_id : Str
  pub current_account_id : Str
  pub block_height : ℕ
  pub block_timestamp : ℕ
  pub shard_id : ℕ
  pub receipt_index : ℕ
  pub order_id : ℕ
  pub key : Str
  pub value : Str
  pub encrypted_key_id : Option Str

pub record StoredKvEntry : Type 0 where
  pub predecessor_id : Str
  pub current_account_id : Str
  pub key : Str
  pub value : Str
  pub block_height : ℕ
  pub block_timestamp : ℕ
  pub receipt_id : Str
  pub tx_hash : Str

abbrev pub universal_suffix : Str
universal_suffix = codes "universal"

-- The formats of the keys.
unfoldable pub checkpoint_key : Str → Str → Str
checkpoint_key chain_id suffix = codes "checkpoint:" ++ (chain_id ++ b':' ∷ suffix)

unfoldable pub fastdata_key : Str → Str → ℕ → Str → Str
fastdata_key chain_id suffix block_height receipt_id =
    codes "fastdata"
    ++ b':' ∷ (chain_id ++ b':' ∷ (suffix ++ b':' ∷ (show block_height ++ b':' ∷ receipt_id)))

unfoldable pub kv_key : Str → Str → Str → Str
kv_key predecessor_id current_account_id key =
    codes "kv:" ++ (predecessor_id ++ b':' ∷ (current_account_id ++ b':' ∷ key))

unfoldable pub kv_history_key : Str → Str → Str → Str
kv_history_key predecessor_id current_account_id key =
    codes "history:" ++ (predecessor_id ++ b':' ∷ (current_account_id ++ b':' ∷ key))

unfoldable pub accounts_key : Str → Str
accounts_key current_account_id = codes "accounts:" ++ current_account_id

unfoldable pub contracts_key : Str → Str
contracts_key predecessor_id = codes "contracts:" ++ predecessor_id

unfoldable pub meta_key : Str → Str
meta_key chain_id = codes "meta:" ++ chain_id

-- `as i64` of a u64 wraps around.
abbrev pub as_i64 : ℕ → ℤ
as_i64 n = if ltb n 9223372036854775808 then pos n else negsuc (18446744073709551615 - n)

-- The commands of Redis that the code sends, and serde_json's writers.
pub record Redis (W E : Type 0) : Type 0 where
  pub connect : W → Result (Unit {0}) E × W
  pub get : Str → W → Result (Option Str) E × W
  pub set : Str → Str → W → Result (Unit {0}) E × W
  pub zadd : Str → Str → ℤ → W → Result (Unit {0}) E × W
  pub sadd : Str → Str → W → Result (Unit {0}) E × W
  pub fastdata_to_string : FastData → Result Str E
  pub stored_to_string : StoredKvEntry → Result Str E

-- `m?; k` on a state
infixr 5 ◌then_do◌
abbrev pub ◌then_do◌ :
    {W E A : Type 0} → (W → Result (Unit {0}) E × W) → (W → Result A E × W) → W → Result A E × W
m then_do k = λ w. elim (m w).0 [ ok _ ↦ k (m w).1 | err e ↦ (err e, (m w).1) ]

abbrev pub finished : {W E : Type 0} → W → Result (Unit {0}) E × W
finished w = (ok tt, w)

module _ {W E : Type 0} (redis : Redis W E) (chain_id : Str) where
  open redis use {connect, get, set, zadd, sadd, fastdata_to_string, stored_to_string}

  -- `height.and_then(|h| h.parse().ok())`
  unfoldable pub get_last_processed_block_height : Str → W → Result (Option ℕ) E × W
  get_last_processed_block_height suffix w = elim (connect w).0 [
    | err e ↦ (err e, (connect w).1)
    | ok _ ↦
        let height = get (checkpoint_key chain_id suffix) (connect w).1 in
        elim height.0 [
          | err e ↦ (err e, height.1)
          | ok found ↦ (ok (elim found [ none ↦ none | some h ↦ parse_u64 h ]), height.1)
        ]
  ]

  unfoldable pub set_last_processed_block_height : Str → ℕ → W → Result (Unit {0}) E × W
  set_last_processed_block_height suffix height =
      connect then_do set (checkpoint_key chain_id suffix) (show height) then_do finished

  unfoldable pub add_data : FastData → W → Result (Unit {0}) E × W
  add_data fastdata w = elim (connect w).0 [
    | err e ↦ (err e, (connect w).1)
    | ok _ ↦ elim (fastdata_to_string fastdata) [
      | err e ↦ (err e, (connect w).1)
      | ok json ↦
          (set (fastdata_key chain_id fastdata.suffix fastdata.block_height fastdata.receipt_id)
                json
              then_do set (meta_key chain_id) (show fastdata.block_height)
              then_do finished)
            (connect w).1
    ]
  ]

  abbrev pub stored_entry : FastDataKv → StoredKvEntry
  stored_entry kv = record {
    predecessor_id = kv.predecessor_id;
    current_account_id = kv.current_account_id;
    key = kv.key;
    value = kv.value;
    block_height = kv.block_height;
    block_timestamp = kv.block_timestamp;
    receipt_id = kv.receipt_id;
    tx_hash = unwrap_or kv.tx_hash [];
  }

  unfoldable pub write_kv : FastDataKv → Str → W → Result (Unit {0}) E × W
  write_kv kv json =
      set (kv_key kv.predecessor_id kv.current_account_id kv.key) json
      then_do zadd (kv_history_key kv.predecessor_id kv.current_account_id kv.key) json
          (as_i64 kv.block_height)
      then_do sadd (accounts_key kv.current_account_id) kv.predecessor_id
      then_do sadd (contracts_key kv.predecessor_id) kv.current_account_id
      then_do finished

  unfoldable pub add_kv : FastDataKv → W → Result (Unit {0}) E × W
  unfolding write_kv
  add_kv kv w = elim (connect w).0 [
    | err e ↦ (err e, (connect w).1)
    | ok _ ↦ elim (stored_to_string (stored_entry kv)) [
      | err e ↦ (err e, (connect w).1)
      | ok json ↦ write_kv kv json (connect w).1
    ]
  ]

  unfoldable pub add_kv_batch : List FastDataKv → W → Result (Unit {0}) E × W
  unfolding add_kv
  add_kv_batch [] w = (ok tt, w)
  add_kv_batch (kv ∷ kvs) w = elim (add_kv kv w).0 [
    | err e ↦ (err e, (add_kv kv w).1)
    | ok _ ↦ add_kv_batch kvs (add_kv kv w).1
  ]

  unfoldable pub set_indexer_block_height : ℕ → W → Result (Unit {0}) E × W
  set_indexer_block_height height =
      connect then_do set (meta_key chain_id) (show height) then_do finished
