-- ===== src/Indexer/Fastfs/Service.antt =====
-- fastdata-indexer/fastfs-sub-indexer/src/main.rs: what is stored of an upload, and the loop over
-- the updates. The database is a state with the two writes of the loop. `borsh::from_slice` and the
-- writes are parameters. The flag `is_running` is shared with the signal handler and the fetcher:
-- each update comes with whether one of them has cleared it by the time the loop looks.
pub mod Laws
pub mod Passes
pub mod Steps
pub mod Stops
mod Tests
use key_manager.Base.{
  ℕ, zero, ◌+◌, ◌%◌, Bool, true, false, ◌&&◌, not, Option, none, some, List, [], ◌∷◌, Result, ok,
  err, leb, length, if◌then◌else◌,
}
use key_manager.Base.Text.{Str, Bytes}
use key_manager.Indexer.Retry.{Returned, returned, panicked, Retried, retry_with_delays}
use key_manager.Indexer.Rows.{Ids, map_option}
use key_manager.Indexer.Rows.Blobs.{FastData}
use key_manager.Indexer.Fastfs.{
  FastfsData, simple, partial, SimpleFastfs, PartialFastfs, FastfsFileContent, simple_is_valid,
  partial_is_valid,
}
use key_manager.Indexer.Fastfs.Rows.{FastfsFastData, FastfsFastDataRow, to_row}

module _ (ids : Ids) where
  -- `u32::try_from(c.len()).expect(…)`: panics beyond u32
  unfoldable pub content_size : Option Bytes → Option ℕ
  content_size none = some 0
  content_size (some c) = if leb (length c) 4294967295 then some (length c) else none

  unfoldable pub simple_entry : FastData ids → SimpleFastfs → Option (FastfsFastData ids)
  unfolding content_size
  simple_entry fastdata s = elim (content_size (map_option (λ c. c.content) s.content)) [
    | none ↦ none
    | some full_size ↦ some (record {
      receipt_id = fastdata.receipt_id;
      action_index = fastdata.action_index;
      tx_hash = fastdata.tx_hash;
      signer_id = fastdata.signer_id;
      predecessor_id = fastdata.predecessor_id;
      current_account_id = fastdata.current_account_id;
      block_height = fastdata.block_height;
      block_timestamp = fastdata.block_timestamp;
      shard_id = fastdata.shard_id;
      receipt_index = fastdata.receipt_index;
      mime_type = map_option (λ c. c.mime_type) s.content;
      relative_path = s.relative_path;
      content = map_option (λ c. c.content) s.content;
      offset = 0;
      full_size = full_size;
      nonce = 0;
    })
  ]

  unfoldable pub partial_entry : FastData ids → PartialFastfs → FastfsFastData ids
  partial_entry fastdata p = record {
    receipt_id = fastdata.receipt_id;
    action_index = fastdata.action_index;
    tx_hash = fastdata.tx_hash;
    signer_id = fastdata.signer_id;
    predecessor_id = fastdata.predecessor_id;
    current_account_id = fastdata.current_account_id;
    block_height = fastdata.block_height;
    block_timestamp = fastdata.block_timestamp;
    shard_id = fastdata.shard_id;
    receipt_index = fastdata.receipt_index;
    mime_type = some p.mime_type;
    relative_path = p.relative_path;
    content = some p.content_chunk;
    offset = p.offset;
    full_size = p.full_size;
    nonce = p.nonce;
  }

  -- What one update asks to be stored.
  pub data Stored : Type 0 where
    skipped : Stored
    entry : FastfsFastData ids → Stored
    too_long : Stored

  unfoldable pub stored : FastData ids → FastfsData → Stored
  unfolding simple_entry partial_entry
  stored fastdata (simple s) =
      if not (simple_is_valid s)
      then skipped
      else elim (simple_entry fastdata s) [ none ↦ too_long | some e ↦ entry e ]
  stored fastdata (partial p) =
      if not (partial_is_valid p) then skipped else entry (partial_entry fastdata p)

  -- The updates as this service takes them apart, with the fast data of the crate scylladb, whose data
  -- are bytes. The fetcher of suffix-fetcher carries those of redis_db, whose data are base64 text, so
  -- the code does not compile against it as it stands.
  pub data SuffixFetcherUpdate : Type 0 where
    fast_data : FastData ids → SuffixFetcherUpdate
    end_of_range : ℕ → SuffixFetcherUpdate

-- The two writes of the loop.
pub record Database (W E : Type 0) : Type 0 where
  pub insert : FastfsFastDataRow → W → Result (Unit {0}) E × W
  pub set_last_processed_block_height : ℕ → W → Result (Unit {0}) E × W

pub record Loop (W : Type 0) : Type 0 where
  pub is_running : Bool
  pub consecutive_checkpoint_failures : ℕ
  pub database : W

-- A round of the loop goes on, leaves the loop, or panics.
pub data Next (W : Type 0) : Type 0 where
  continue : Loop W → Next W
  break : Loop W → Next W
  panic : Next W

abbrev pub max_consecutive_checkpoint_failures : ℕ
max_consecutive_checkpoint_failures = 5

abbrev pub delays : List ℕ
delays = 1 ∷ 2 ∷ 4 ∷ []

module _ (ids : Ids) {W E : Type 0} (no_attempts : E) (from_slice : Bytes → Result FastfsData E)
    (db : Database W E) where
  open db use {insert, set_last_processed_block_height}

  -- The row is made anew in each attempt, and making it panics or not in all of them.
  unfoldable pub write_with_retries : FastfsFastData ids → W → Retried W (Unit {0}) E
  unfolding retry_with_delays
  write_with_retries fastdata w = elim (to_row ids fastdata) [
    | none ↦ record { result = panicked; state = w; slept = [] }
    | some row ↦ retry_with_delays no_attempts (insert row) delays w
  ]

  unfoldable pub handle_fast_data : FastData ids → Loop W → Next W
  unfolding stored write_with_retries
  handle_fast_data fastdata loop = elim (from_slice fastdata.bytes) [
    | err e ↦ continue loop
    | ok value ↦ elim (stored ids fastdata value) [
      | skipped ↦ continue loop
      | too_long ↦ panic
      | entry e ↦
          let written = write_with_retries e loop.database in
          elim written.result [
            | panicked ↦ panic
            | returned r ↦ elim r [
              | ok _ ↦ continue (record loop { database = written.state })
              | err _ ↦ break (record loop { is_running = false; database = written.state })
            ]
          ]
    ]
  ]

  -- The loop over `checkpoint_delays`: whether one of the attempts succeeded, and the state.
  unfoldable pub write_checkpoint : ℕ → List ℕ → W → Bool × W
  write_checkpoint block_height [] w = (false, w)
  write_checkpoint block_height (delay ∷ ds) w =
      let rest =
        write_checkpoint block_height ds (set_last_processed_block_height block_height w).1 in
      elim (set_last_processed_block_height block_height w).0 [
        | ok _ ↦ (true, (set_last_processed_block_height block_height w).1)
        | err _ ↦ rest
      ]

  unfoldable pub handle_end_of_range : ℕ → Bool → Loop W → Next W
  unfolding write_checkpoint
  handle_end_of_range block_height stopped loop =
      let (success, w) = write_checkpoint block_height delays loop.database in
      let failures = if success then 0 else loop.consecutive_checkpoint_failures + 1 in
      let too_many = not success && leb max_consecutive_checkpoint_failures failures in
      let running = loop.is_running && not stopped && not too_many in
      let loop' : Loop W = record {
        is_running = running;
        consecutive_checkpoint_failures = failures;
        database = w;
      } in
      if not running then break loop' else continue loop'

  unfoldable pub handle : SuffixFetcherUpdate ids → Bool → Loop W → Next W
  unfolding handle_fast_data handle_end_of_range
  handle (fast_data fastdata) stopped loop = handle_fast_data fastdata loop
  handle (end_of_range block_height) stopped loop = handle_end_of_range block_height stopped loop

  -- The loop over what the channel yields until it is closed.
  unfoldable pub run : List (SuffixFetcherUpdate ids × Bool) → Loop W → Next W
  unfolding handle
  run [] loop = break loop
  run ((update, stopped) ∷ updates) loop = elim (handle update stopped loop) [
    | continue loop' ↦ run updates loop'
    | break loop' ↦ break loop'
    | panic ↦ panic
  ]
