-- ===== src/Indexer/Fastfs/Service/Passes.antt =====
-- What one update that the loop passes does to the database.
use key_manager.Base.{
  ℕ, ◌≡◌, ◌≢◌, refl, ◌⊎◌, inl, inr, Bool, none, some, List, ◌∷◌, Result, ok, err, arith,
  Option-cases,
}
use key_manager.Base.Text.{Bytes}
use key_manager.Indexer.Retry.{Returned, returned, panicked, retry_with_delays}
use key_manager.Indexer.Rows.{Ids}
use key_manager.Indexer.Rows.Blobs.{FastData}
use key_manager.Indexer.Fastfs.{FastfsData}
use key_manager.Indexer.Fastfs.Rows.{FastfsFastData, FastfsFastDataRow, to_row}
use key_manager.Indexer.Fastfs.Service.{
  Stored, skipped, entry, too_long, stored, Database, Loop, continue, delays, write_with_retries,
  handle_fast_data, write_checkpoint, handle_end_of_range,
}

module _ (ids : Ids) {W E : Type 0} (no_attempts : E) (from_slice : Bytes → Result FastfsData E)
    (db : Database W E) where
  pub Returned-cases :
      (r : Returned (Unit {0}) E)
      → (r ≡ panicked)
        ⊎ (((u : Unit {0}) × (r ≡ returned (ok u))) ⊎ ((e : E) × (r ≡ returned (err e))))
  Returned-cases panicked = inl refl
  Returned-cases (returned (ok u)) = inr (inl (u, refl))
  Returned-cases (returned (err e)) = inr (inr (e, refl))

  pub write_panics :
      (e : FastfsFastData ids) (w : W)
      → to_row ids e ≡ none
      → (write_with_retries ids no_attempts from_slice db e w).result ≡ panicked
  unfolding write_with_retries
  write_panics e w h = ground (arith, h)

  pub write_row :
      (e : FastfsFastData ids) (w : W) (row : FastfsFastDataRow)
      → to_row ids e ≡ some row
      → write_with_retries ids no_attempts from_slice db e w
        ≡ retry_with_delays no_attempts (db.insert row) delays w
  unfolding write_with_retries
  write_row e w row h = ground (arith, h)

  -- An update was stored: the row, and what the writes made of the database.
  abbrev pub Written : FastfsFastData ids → W → W → Type 0
  Written e w w' =
      (row : FastfsFastDataRow) × (u : Unit {0}) × (to_row ids e ≡ some row)
      × ((retry_with_delays no_attempts (db.insert row) delays w).result ≡ returned (ok u))
      × (w' ≡ (retry_with_delays no_attempts (db.insert row) delays w).state)

  pub passes_entry :
      (fastdata : FastData ids) (value : FastfsData) (e : FastfsFastData ids) (loop loop' : Loop W)
      → from_slice fastdata.bytes ≡ ok value
      → stored ids fastdata value ≡ entry e
      → handle_fast_data ids no_attempts from_slice db fastdata loop ≡ continue loop'
      → Written e loop.database loop'.database
  passes_entry fastdata value e loop loop' parses stores h = elim (Option-cases (to_row ids e)) [
    | inl unfit ↦ absurd (
        unfold handle_fast_data in
        ground (arith, parses, stores, h, write_panics e loop.database unfit))
    | inr (row, fit) ↦
        let same = write_row e loop.database row fit in
        elim (Returned-cases
          (retry_with_delays no_attempts (db.insert row) delays loop.database).result) [
            | inl panics ↦
                absurd (unfold handle_fast_data in ground (arith, parses, stores, h, same, panics))
            | inr (inl (u, good)) ↦ (
              row,
              u,
              fit,
              good,
              unfold handle_fast_data in ground (arith, parses, stores, h, same, good),
            )
            | inr (inr (x, bad)) ↦
                absurd (unfold handle_fast_data in ground (arith, parses, stores, h, same, bad))
          ]
  ]

  pub passes_unparsed :
      (fastdata : FastData ids) (x : E) (loop loop' : Loop W)
      → from_slice fastdata.bytes ≡ err x
      → handle_fast_data ids no_attempts from_slice db fastdata loop ≡ continue loop'
      → loop' ≡ loop
  unfolding handle_fast_data
  passes_unparsed fastdata x loop loop' parses h = ground (arith, parses, h)

  pub passes_skipped :
      (fastdata : FastData ids) (value : FastfsData) (loop loop' : Loop W)
      → from_slice fastdata.bytes ≡ ok value
      → stored ids fastdata value ≡ skipped
      → handle_fast_data ids no_attempts from_slice db fastdata loop ≡ continue loop'
      → loop' ≡ loop
  unfolding handle_fast_data
  passes_skipped fastdata value loop loop' parses stores h = ground (arith, parses, stores, h)

  pub passes_too_long :
      (fastdata : FastData ids) (value : FastfsData) (loop loop' : Loop W)
      → from_slice fastdata.bytes ≡ ok value
      → stored ids fastdata value ≡ too_long
      → handle_fast_data ids no_attempts from_slice db fastdata loop ≢ continue loop'
  unfolding handle_fast_data
  passes_too_long fastdata value loop loop' parses stores h = ground (arith, parses, stores, h)

  pub Stored-cases :
      (s : Stored ids)
      → (s ≡ skipped) ⊎ (((e : FastfsFastData ids) × (s ≡ entry e)) ⊎ (s ≡ too_long))
  Stored-cases skipped = inl refl
  Stored-cases (entry e) = inr (inl (e, refl))
  Stored-cases too_long = inr (inr refl)

  pub passes_end :
      (height : ℕ) (stopped : Bool) (loop loop' : Loop W)
      → handle_end_of_range ids no_attempts from_slice db height stopped loop ≡ continue loop'
      → loop'.database
        ≡ (write_checkpoint ids no_attempts from_slice db height delays loop.database).1
  unfolding handle_end_of_range
  passes_end height stopped loop loop' h = ground (arith, h)

  pub checkpoint_ok :
      (height d : ℕ) (ds : List ℕ) (w : W) (u : Unit {0})
      → (db.set_last_processed_block_height height w).0 ≡ ok u
      → (write_checkpoint ids no_attempts from_slice db height (d ∷ ds) w).1
        ≡ (db.set_last_processed_block_height height w).1
  unfolding write_checkpoint
  checkpoint_ok height d ds w u h = ground (arith, h)

  pub checkpoint_err :
      (height d : ℕ) (ds : List ℕ) (w : W) (e : E)
      → (db.set_last_processed_block_height height w).0 ≡ err e
      → (write_checkpoint ids no_attempts from_slice db height (d ∷ ds) w).1
        ≡ (write_checkpoint ids no_attempts from_slice db height ds
            (db.set_last_processed_block_height height w).1).1
  unfolding write_checkpoint
  checkpoint_err height d ds w e h = ground (arith, h)
