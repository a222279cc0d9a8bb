-- ===== src/Indexer/Blocks.antt =====
-- fastdata-indexer/main-indexer/src/main.rs: fast data out of the blocks of the chain. The records
-- hold what the code reads of near's block views; hashes and account ids are their texts.
pub mod Extract
pub mod Rounds
pub mod Stored
mod Tests
use key_manager.Base.{
  ℕ, zero, suc, ◌+◌, Bool, true, false, ◌&&◌, ◌||◌, not, Option, none, some, List, [], ◌∷◌, ◌++◌,
  Result, ok, err, ltb, leb, ◌==◌, any, all, is_empty, if◌then◌else◌,
}
use key_manager.Base.Text.{Str, Bytes, codes, len, ◌==ₛ◌, strip_prefix, is_ascii_alphanumeric}
use key_manager.Indexer.RedisDb
use key_manager.Indexer.RedisDb.{Redis, FastData, universal_suffix, add_data}

pub data Action : Type 0 where
  function_call : (method_name : Str) (args : Bytes) → Action
  other : Action

-- A receipt is one of actions, with their signer, or not.
pub record Outcome : Type 0 where
  pub receipt_id : Str
  pub predecessor_id : Str
  pub receiver_id : Str
  pub tx_hash : Option Str
  pub receipt : Option (Str × List Action)

pub record Shard : Type 0 where
  pub shard_id : ℕ
  pub receipt_execution_outcomes : List Outcome

pub record Block : Type 0 where
  pub height : ℕ
  pub timestamp : ℕ
  pub shards : List Shard

abbrev pub fastdata_prefix : Str
fastdata_prefix = codes "__fastdata_"

-- the test under which a suffix is skipped
unfoldable pub is_invalid_suffix : Str → Bool
is_invalid_suffix suffix =
    is_empty suffix
    || (suffix ==ₛ universal_suffix)
    || ltb 64 (len suffix)
    || not (all (λ c. is_ascii_alphanumeric c || c == b'_' || c == b'-') suffix)

abbrev contains : List Str → Str → Bool
contains accounts account = any (λ a. a ==ₛ account) accounts

-- the account filter: no filter lets all pass
unfoldable pub passes_filter : Option (List Str) → Str → Str → Str → Bool
passes_filter none predecessor_id signer_id current_account_id = true
passes_filter (some filter) predecessor_id signer_id current_account_id =
    contains filter predecessor_id
    || contains filter signer_id
    || contains filter current_account_id

module _ (base64_encode : Bytes → Str) (filter_accounts : Option (List Str)) where
  unfoldable pub action_data : Block → ℕ → ℕ → Outcome → Str → ℕ → Action → List FastData
  unfolding is_invalid_suffix passes_filter
  action_data block shard_id receipt_index o signer_id action_index other = []
  action_data block shard_id receipt_index o signer_id action_index
        (function_call method_name args) =
      elim (strip_prefix method_name fastdata_prefix) [
        | none ↦ []
        | some suffix ↦
            if is_invalid_suffix suffix
            then []
            else if not (passes_filter filter_accounts o.predecessor_id signer_id o.receiver_id)
            then []
            else record {
              receipt_id = o.receipt_id;
              action_index = action_index;
              suffix = suffix;
              base64 = base64_encode args;
              tx_hash = o.tx_hash;
              signer_id = signer_id;
              predecessor_id = o.predecessor_id;
              current_account_id = o.receiver_id;
              block_height = block.height;
              block_timestamp = block.timestamp;
              shard_id = shard_id;
              receipt_index = receipt_index;
            }
              ∷ []
      ]

  -- the three nested loops, each counting from the index it is given
  unfoldable pub actions_data : Block → ℕ → ℕ → Outcome → Str → ℕ → List Action → List FastData
  unfolding action_data
  actions_data block shard_id receipt_index o signer_id action_index [] = []
  actions_data block shard_id receipt_index o signer_id action_index (action ∷ actions) =
      action_data block shard_id receipt_index o signer_id action_index action
      ++ actions_data block shard_id receipt_index o signer_id (action_index + 1) actions

  abbrev pub receipt_data : Block → ℕ → ℕ → Outcome → List FastData
  receipt_data block shard_id receipt_index o = elim o.receipt [
    | none ↦ []
    | some (signer_id, actions) ↦ actions_data block shard_id receipt_index o signer_id 0 actions
  ]

  unfoldable pub shard_data : Block → ℕ → ℕ → List Outcome → List FastData
  unfolding actions_data
  shard_data block shard_id receipt_index [] = []
  shard_data block shard_id receipt_index (o ∷ outcomes) =
      receipt_data block shard_id receipt_index o
      ++ shard_data block shard_id (receipt_index + 1) outcomes

  unfoldable pub shards_data : Block → List Shard → List FastData
  unfolding shard_data
  shards_data block [] = []
  shards_data block (shard ∷ shards) =
      shard_data block shard.shard_id 0 shard.receipt_execution_outcomes ++ shards_data block shards

  unfoldable pub block_data : Block → List FastData
  unfolding shards_data
  block_data block = shards_data block block.shards

-- The writes of the loop: all data of a block, and the checkpoint. `redis_database` fills it.
pub record Database (W E : Type 0) : Type 0 where
  pub insert_all : List FastData → W → Result (Unit {0}) E × W
  pub set_last_processed_block_height : ℕ → W → Result (Unit {0}) E × W

-- The insertions of a block's data, as they end one after the other: all of them are run, also behind
-- one that fails, and the result is an error if one is.
unfoldable pub insert_data :
    {W E : Type 0} → Redis W E → Str → List FastData → W → Result (Unit {0}) E × W
insert_data redis chain_id [] w = (ok tt, w)
insert_data redis chain_id (fastdata ∷ data') w =
    let inserted = add_data redis chain_id fastdata w in
    let rest = insert_data redis chain_id data' inserted.1 in
    (elim inserted.0 [ ok _ ↦ rest.0 | err e ↦ err e ], rest.1)

-- The writes as the crate redis_db makes them. `order` is the order in which the insertions, of
-- which a hundred at a time wait for Redis, come to be made in a state.
unfoldable pub redis_database :
    {W E : Type 0} → Redis W E → Str → (W → List FastData → List FastData) → Database W E
unfolding insert_data
redis_database redis chain_id order = record {
  insert_all = λ rows w. insert_data redis chain_id (order w rows) w;
  set_last_processed_block_height =
      λ height. RedisDb.set_last_processed_block_height redis chain_id universal_suffix height;
}

pub record Loop (W : Type 0) : Type 0 where
  pub is_running : Bool
  pub consecutive_checkpoint_failures : ℕ
  pub database : W

pub data Next (W : Type 0) : Type 0 where
  continue : Loop W → Next W
  break : Loop W → Next W

abbrev pub max_consecutive_checkpoint_failures : ℕ
max_consecutive_checkpoint_failures = 5

-- `attempts` tries of a write: whether one succeeded, and the state
unfoldable pub try_write : {W E : Type 0} → (W → Result (Unit {0}) E × W) → ℕ → W → Bool × W
try_write write zero w = (false, w)
try_write write (suc attempts) w =
    let rest = try_write write attempts (write w).1 in
    elim (write w).0 [ ok _ ↦ (true, (write w).1) | err _ ↦ rest ]

module _ {W E : Type 0} (db : Database W E) where
  open db use {insert_all, set_last_processed_block_height}

  -- The checkpoint of a block: three attempts.
  unfoldable pub save_height : ℕ → Loop W → Loop W
  unfolding try_write
  save_height block_height loop =
      let saved = try_write (set_last_processed_block_height block_height) 3 loop.database in
      let failures = if saved.0 then 0 else loop.consecutive_checkpoint_failures + 1 in
      record {
        is_running =
            loop.is_running
            && not (not saved.0 && leb max_consecutive_checkpoint_failures failures);
        consecutive_checkpoint_failures = failures;
        database = saved.1;
      }

  -- A block's data are inserted in up to four attempts. `due`: the interval since the last
  -- checkpoint is over; `stopped`: the flag has been cleared from outside by then.
  unfoldable pub handle_block : ℕ → List FastData → Bool → Bool → Loop W → Next W
  unfolding save_height
  handle_block block_height rows due stopped loop =
      let inserted =
        if is_empty rows
        then (true, loop.database)
        else try_write (insert_all rows) 4 loop.database in
      if not inserted.0
      then break (record loop { is_running = false; database = inserted.1 })
      else (let loop' : Loop W = record loop {
        is_running = loop.is_running && not stopped;
        database = inserted.1;
      } in
          let need_to_save = due || not (is_empty rows) || not loop'.is_running in
          let loop'' = if need_to_save then save_height block_height loop' else loop' in
          if not loop''.is_running then break loop'' else continue loop'')
