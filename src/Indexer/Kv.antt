-- ===== src/Indexer/Kv.antt =====
-- fastdata-indexer/kv-sub-indexer/src/main.rs: key-value entries from fast data, and the loop.
-- base64 and serde_json are parameters. `is_running` is shared: an update comes with whether
-- another thread has cleared the flag by the time the loop looks.
pub mod Entries
pub mod Loop
pub mod Recorded
mod Tests
use key_manager.Base.{
  ℕ, ◌+◌, Bool, true, false, ◌&&◌, ◌||◌, not, Option, none, some, List, [], ◌∷◌, ◌++◌, Result, ok,
  err, ltb, leb, ◌==◌, any, is_empty, length, if◌then◌else◌,
}
use key_manager.Base.Text.{Str, Bytes, codes, len, is_control, strip_prefix, split_once}
use key_manager.Indexer.OrderId.{Position, compute_order_id_unchecked}
use key_manager.Indexer.RedisDb
use key_manager.Indexer.RedisDb.{Redis, FastData, FastDataKv}

abbrev pub max_num_keys : ℕ
max_num_keys = 256

abbrev pub max_key_length : ℕ
max_key_length = 1024

-- base64 and serde_json; an object is read as the list of its keys and values in their order.
pub record Decoding : Type 1 where
  pub Value : Type 0
  pub base64_decode : Str → Option Bytes
  pub from_slice : Bytes → Option Value
  pub as_object : Value → Option (List (Str × Value))
  pub to_string : Value → Option Str

-- `trim_matches('"')`
unfoldable pub trim_start : Str → Str
trim_start [] = []
trim_start (c ∷ s) = let rest = trim_start s in if c == b'"' then rest else c ∷ s

unfoldable pub trim_end : Str → Str
trim_end [] = []
trim_end (c ∷ s) = let rest = trim_end s in if is_empty rest && (c == b'"') then [] else c ∷ rest

-- `splitn(2, ':')` yields two parts if there is a colon, the first being the text before it.
unfoldable pub detect_encrypted : Str → Option Str
unfolding trim_start trim_end
detect_encrypted value = elim (strip_prefix (trim_end (trim_start value)) (codes "enc:AES256:")) [
  | none ↦ none
  | some rest ↦ elim (split_once b':' rest) [ none ↦ none | some (key_id, _) ↦ some key_id ]
]

abbrev position : FastData → Position
position fastdata = record {
  receipt_id = fastdata.receipt_id;
  shard_id = fastdata.shard_id;
  receipt_index = fastdata.receipt_index;
  action_index = fastdata.action_index;
}

unfoldable pub kv_entry : FastData → Str → Str → FastDataKv
unfolding detect_encrypted
kv_entry fastdata key serialized_value = record {
  receipt_id = fastdata.receipt_id;
  action_index = fastdata.action_index;
  tx_hash = fastdata.tx_hash;
  signer_id = fastdata.signer_id;
  predecessor_id = fastdata.predecessor_id;
  current_account_id = fastdata.current_account_id;
  block_height = fastdata.block_height;
  block_timestamp = fastdata.block_timestamp;
  shard_id = fastdata.shard_id;
  receipt_index = fastdata.receipt_index;
  order_id = compute_order_id_unchecked (position fastdata);
  key = key;
  value = serialized_value;
  encrypted_key_id = detect_encrypted serialized_value;
}

module _ (d : Decoding) where
  -- the loop over the object's items
  unfoldable pub item_entries : FastData → List (Str × d.Value) → List FastDataKv
  unfolding kv_entry
  item_entries fastdata [] = []
  item_entries fastdata ((key, value) ∷ items) =
      let rest = item_entries fastdata items in
      if ltb max_key_length (len key)
      then rest
      else if is_empty key || any is_control key
      then rest
      else elim (d.to_string value) [
        | none ↦ rest
        | some serialized_value ↦ kv_entry fastdata key serialized_value ∷ rest
      ]

  unfoldable pub parse_kv_entries : FastData → List FastDataKv
  unfolding item_entries
  parse_kv_entries fastdata = elim (d.base64_decode fastdata.base64) [
    | none ↦ []
    | some decoded_data ↦ elim (d.from_slice decoded_data) [
      | none ↦ []
      | some json_value ↦ elim (d.as_object json_value) [
        | none ↦ []
        | some json_object ↦
            if ltb max_num_keys (length json_object) then [] else item_entries fastdata json_object
      ]
    ]
  ]

pub data SuffixFetcherUpdate : Type 0 where
  fast_data : FastData → SuffixFetcherUpdate
  end_of_range : ℕ → SuffixFetcherUpdate

-- The writes that the loop makes, an interface that `redis_sink` below fills with those of redis_db.
pub record Sink (W E : Type 0) : Type 0 where
  pub add_kv_batch : List FastDataKv → W → Result (Unit {0}) E × W
  pub set_last_processed_block_height : ℕ → W → Result (Unit {0}) E × W

pub record State (W : Type 0) : Type 0 where
  pub is_running : Bool
  pub rows : List FastDataKv
  pub database : W

-- A round of the loop goes on or leaves the loop.
pub data Next (W : Type 0) : Type 0 where
  continue : State W → Next W
  break : State W → Next W

abbrev pub indexer_id : Str
indexer_id = codes "kv-sub-indexer"

-- The writes of the loop as the crate redis_db makes them.
abbrev pub redis_sink : {W E : Type 0} → Redis W E → Str → Sink W E
redis_sink redis chain_id = record {
  add_kv_batch = RedisDb.add_kv_batch redis chain_id;
  set_last_processed_block_height =
      λ height. RedisDb.set_last_processed_block_height redis chain_id indexer_id height;
}

abbrev pub early_flush : ℕ
early_flush = 10_000

module _ {W E : Type 0} (d : Decoding) (sink : Sink W E) where
  open sink use {add_kv_batch, set_last_processed_block_height}

  unfoldable pub flush_rows : List FastDataKv → Option ℕ → W → Result (Unit {0}) E × W
  flush_rows rows checkpoint w = elim (add_kv_batch rows w).0 [
    | err e ↦ (err e, (add_kv_batch rows w).1)
    | ok _ ↦ elim checkpoint [
      | none ↦ (ok tt, (add_kv_batch rows w).1)
      | some height ↦ set_last_processed_block_height height (add_kv_batch rows w).1
    ]
  ]

  -- After a flush of all rows: a failure clears the flag and leaves the loop.
  unfoldable pub flush_all : List FastDataKv → Option ℕ → State W → Next W
  unfolding flush_rows
  flush_all rows checkpoint state =
      let flushed = flush_rows rows checkpoint state.database in
      elim flushed.0 [
        | err e ↦ break (record { is_running = false; rows = []; database = flushed.1 })
        | ok _ ↦
            continue (record { is_running = state.is_running; rows = []; database = flushed.1 })
      ]

  unfoldable pub handle : SuffixFetcherUpdate → Bool → State W → Next W
  unfolding parse_kv_entries flush_all
  handle (fast_data fastdata) stopped state =
      let rows = state.rows ++ parse_kv_entries d fastdata in
      if leb early_flush (length rows)
      then flush_all rows none state
      else continue (record state { rows = rows })
  handle (end_of_range block_height) stopped state =
      elim (flush_all state.rows (some block_height) state) [
        | break s ↦ break s
        | continue s ↦
            if s.is_running && not stopped
            then continue s
            else break (record s { is_running = false })
      ]

  -- The loop over what the channel yields until it is closed.
  unfoldable pub run : List (SuffixFetcherUpdate × Bool) → State W → Next W
  unfolding handle
  run [] state = break state
  run ((update, stopped) ∷ updates) state = elim (handle update stopped state) [
    | continue next ↦ run updates next
    | break last ↦ break last
  ]
