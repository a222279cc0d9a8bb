-- ===== src/Indexer/Blocks/Rounds.antt =====
-- A round of the loop with a block's data, over any database.
use key_manager.Base.{
  ℕ, zero, suc, ◌<◌, ◌≡◌, ◌≢◌, refl, sym, ap, ◌∙◌, subst, inl, inr, Bool, true, false, List, [],
  ◌∷◌, Result, ok, err, arith, Result-cases,
}
use key_manager.Indexer.RedisDb.{FastData}
use key_manager.Indexer.Blocks.{
  Database, Loop, continue, break, try_write, save_height, handle_block,
}

try_write_ok :
    {W E : Type 0} (write : W → Result (Unit {0}) E × W) (n : ℕ) (w : W) (u : Unit {0})
    → (write w).0 ≡ ok u
    → try_write write (suc n) w ≡ (true, (write w).1)
unfolding try_write
try_write_ok write n w u h = ground (arith, h)

try_write_err :
    {W E : Type 0} (write : W → Result (Unit {0}) E × W) (n : ℕ) (w : W) (e : E)
    → (write w).0 ≡ err e
    → try_write write (suc n) w ≡ try_write write n (write w).1
unfolding try_write
try_write_err write n w e h = ground (arith, h)

-- If one of the tries succeeds, the last state is one that a successful write has left.
try_write-succeeds :
    {W E : Type 0} (P : W → Type 0) (write : W → Result (Unit {0}) E × W) (n : ℕ) (w : W)
    → ((w : W) (u : Unit {0}) → (write w).0 ≡ ok u → P (write w).1)
    → (try_write write n w).0 ≡ true
    → P (try_write write n w).1
try_write-succeeds P write zero w f h = absurd (unfold try_write in ground (arith, h))
try_write-succeeds P write (suc n) w f h = elim (Result-cases (write w).0) [
  | inl (u, good) ↦ subst (λ p. P p.1) (sym (try_write_ok write n w u good)) (f w u good)
  | inr (e, bad) ↦
      let same = try_write_err write n w e bad in
      subst (λ p. P p.1) (sym same)
        (try_write-succeeds P write n (write w).1 f (ap (λ p. p.0) (sym same) ∙ h))
]

-- What holds in a state and outlives a write outlives all tries.
try_write-keeps :
    {W E : Type 0} (P : W → Type 0) (write : W → Result (Unit {0}) E × W) (n : ℕ) (w : W)
    → ((w : W) → P w → P (write w).1)
    → P w
    → P (try_write write n w).1
try_write-keeps P write zero w f h = unfold try_write in h
try_write-keeps P write (suc n) w f h = elim (Result-cases (write w).0) [
  | inl (u, good) ↦ subst (λ p. P p.1) (sym (try_write_ok write n w u good)) (f w h)
  | inr (e, bad) ↦
      subst (λ p. P p.1) (sym (try_write_err write n w e bad))
        (try_write-keeps P write n (write w).1 f (f w h))
]

module _ {W E : Type 0} (db : Database W E) where
  -- what the loop has done when it goes on after a block
  handle_block_continue :
      (height : ℕ) (rows : List FastData) (due stopped : Bool) (loop loop' : Loop W)
      → handle_block db height rows due stopped loop ≡ continue loop'
      → rows ≢ []
      → ((try_write (db.insert_all rows) 4 loop.database).0 ≡ true)
        × (loop'.database
            ≡ (try_write
                (db.set_last_processed_block_height height)
                3
                (try_write (db.insert_all rows) 4 loop.database).1).1)
        × (loop'.is_running ≡ true)
        × (stopped ≡ false)
        × (loop'.consecutive_checkpoint_failures < 5)
  unfolding handle_block save_height
  handle_block_continue height [] due stopped loop loop' h n = absurd (n refl)
  handle_block_continue height (fd ∷ rows) due stopped loop loop' h n = ground (arith, h)

  -- If the loop goes on after a block with data, what a successful insertion of them leaves and a
  -- checkpoint keeps holds of the database, the flag is set and fewer than 5 checkpoints in a row have
  -- failed.
  pub handle_block_leaves :
      (P : W → Type 0) (height : ℕ) (rows : List FastData) (due stopped : Bool)
      (loop loop' : Loop W)
      → ((w : W) (u : Unit {0}) → (db.insert_all rows w).0 ≡ ok u → P (db.insert_all rows w).1)
      → ((w : W) → P w → P (db.set_last_processed_block_height height w).1)
      → handle_block db height rows due stopped loop ≡ continue loop'
      → rows ≢ []
      → P loop'.database
        × (loop'.is_running ≡ true)
        × (stopped ≡ false)
        × (loop'.consecutive_checkpoint_failures < 5)
  handle_block_leaves P height rows due stopped loop loop' inserted kept h n =
      let (success, same, running, unstopped, few) =
        handle_block_continue height rows due stopped loop loop' h n in
      (
        subst P (sym same) (
            try_write-keeps P (db.set_last_processed_block_height height) 3 _ kept
              (try_write-succeeds P (db.insert_all rows) 4 loop.database inserted success)),
        running,
        unstopped,
        few,
      )

  -- If the data of a block cannot be inserted in four attempts, the loop stops with the flag
  -- cleared and writes no checkpoint.
  pub handle_block_fails :
      (height : ℕ) (rows : List FastData) (due stopped : Bool) (loop : Loop W)
      → rows ≢ []
      → (try_write (db.insert_all rows) 4 loop.database).0 ≡ false
      → handle_block db height rows due stopped loop
        ≡ break (record loop {
          is_running = false;
          database = (try_write (db.insert_all rows) 4 loop.database).1;
        })
  unfolding handle_block
  handle_block_fails height [] due stopped loop n h = absurd (n refl)
  handle_block_fails height (fd ∷ rows) due stopped loop n h = ground (arith, h)
