-- ===== src/Indexer/Fastfs/Service/Stops.antt =====
-- When the service stops.
use key_manager.Base.{
  ℕ, ◌+◌, ◌≤◌, ◌<◌, ◌≡◌, refl, ◌⊎◌, inl, inr, Bool, true, false, Result, arith, Bool-cases, leb,
  if◌then◌else◌, ◌&&◌, not,
}
use key_manager.Base.Text.{Bytes}
use key_manager.Indexer.Rows.{Ids}
use key_manager.Indexer.Fastfs.{FastfsData}
use key_manager.Indexer.Fastfs.Service.{
  Database, Loop, continue, break, delays, write_checkpoint, handle_end_of_range,
  max_consecutive_checkpoint_failures,
}

module _ (ids : Ids) {W E : Type 0} (no_attempts : E) (from_slice : Bytes → Result FastfsData E)
    (db : Database W E) where
  -- the loop's variables after an end of a range
  abbrev after : ℕ → Bool → Loop W → Loop W
  after height stopped loop =
      let written = write_checkpoint ids no_attempts from_slice db height delays loop.database in
      let failures = if written.0 then 0 else loop.consecutive_checkpoint_failures + 1 in
      record {
        is_running =
            loop.is_running
            && not stopped
            && not (not written.0 && leb max_consecutive_checkpoint_failures failures);
        consecutive_checkpoint_failures = failures;
        database = written.1;
      }

  -- After an end of a range the loop goes on only while the flag is set, and with fewer than 5
  -- failed checkpoints in a row, the count being 0 if this one was written and one more than before
  -- if it was not; else it breaks with the flag cleared. It never panics there.
  pub handle_end_of_range_lem :
      (height : ℕ) (stopped : Bool) (loop : Loop W)
      → (loop' : Loop W) × (loop'.consecutive_checkpoint_failures ≡ (
          if (write_checkpoint ids no_attempts from_slice db height delays loop.database).0
          then 0
          else loop.consecutive_checkpoint_failures + 1))
        × (((handle_end_of_range ids no_attempts from_slice db height stopped loop ≡ continue loop')
              × (loop'.is_running ≡ true)
              × (stopped ≡ false)
              × (loop'.consecutive_checkpoint_failures < 5))
            ⊎ ((handle_end_of_range ids no_attempts from_slice db height stopped loop ≡ break loop')
                × (loop'.is_running ≡ false)
                × ((loop.is_running ≡ false)
                    ⊎ ((stopped ≡ true) ⊎ (5 ≤ loop'.consecutive_checkpoint_failures)))))
  handle_end_of_range_lem height stopped loop = (
    after height stopped loop,
    refl,
    elim (Bool-cases (after height stopped loop).is_running) [
      | inl on ↦ inl (
        unfold handle_end_of_range in ground (arith, on),
        on,
        ground (arith, on),
        ground (arith, on),
      )
      | inr off ↦ inr (unfold handle_end_of_range in ground (arith, off), off, ground (arith, off))
    ],
  )
