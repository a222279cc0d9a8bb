-- ===== src/Indexer/Fastfs/Service/Steps.antt =====
-- Sequences of updates that the service passes, over a table with a primary key.
use key_manager.Base.{
  ℕ, ◌≡◌, refl, sym, ap, ◌∙◌, ◌⊎◌, inl, inr, Bool, Option, none, some, List, [], ◌∷◌, ◌++◌, Result,
  ok, err, arith, Result-cases, subst,
}
use key_manager.Base.Text.{Str, Bytes}
use key_manager.Base.Decimal.{ℤ}
use key_manager.Indexer.Rows.Blobs.{FastData}
use key_manager.Indexer.Retry.{returned, retry_with_delays}
use key_manager.Indexer.Retry.Laws.{Fail, start, fail, retry_with_delays_lem}
use key_manager.Indexer.Rows.{Ids}
use key_manager.Indexer.Fastfs.{FastfsData}
use key_manager.Indexer.Fastfs.Rows.{FastfsFastData, FastfsFastDataRow, to_row}
use key_manager.Indexer.Fastfs.Service.{
  Stored, entry, stored, SuffixFetcherUpdate, fast_data, end_of_range, Database, Loop, continue,
  delays, handle_fast_data, write_checkpoint, handle,
}
use key_manager.Indexer.Fastfs.Service.Passes.{
  passes_entry, passes_unparsed, passes_skipped, passes_too_long, Stored-cases, passes_end,
  checkpoint_ok, checkpoint_err,
}

-- The primary key of the table: predecessor, current account, path, nonce and offset.
abbrev pub PrimaryKey : Type 0
PrimaryKey = Str × Str × Str × ℤ × ℤ

abbrev pub primary_key : FastfsFastDataRow → PrimaryKey
primary_key row =
    (row.predecessor_id, row.current_account_id, row.relative_path, row.nonce, row.offset)

-- The documented effect of the writes on the table, where `at w k` is the row with the primary key
-- `k`: an insertion that reports success replaces the row with its key, and one that reports an error
-- may have done so or not. Neither it nor a checkpoint touches the other rows.
pub record IsTable {W E : Type 0} (db : Database W E)
    (at : W → PrimaryKey → Option FastfsFastDataRow) : Type 0 where
  pub inserted :
      (row : FastfsFastDataRow) (w : W) (u : Unit {0})
      → (db.insert row w).0 ≡ ok u
      → at (db.insert row w).1 (primary_key row) ≡ some row
  pub insert_upserts :
      (row : FastfsFastDataRow) (k : PrimaryKey) (w : W)
      → (at (db.insert row w).1 k ≡ at w k)
        ⊎ ((k ≡ primary_key row) × (at (db.insert row w).1 k ≡ some row))
  pub set_keeps :
      (height : ℕ) (k : PrimaryKey) (w : W)
      → at (db.set_last_processed_block_height height w).1 k ≡ at w k

abbrev pub Among : FastfsFastDataRow → List FastfsFastDataRow → Type 0
Among x [] = ⊥
Among x (y ∷ ys) = (x ≡ y) ⊎ Among x ys

Among-append :
    (x : FastfsFastDataRow) (xs ys : List FastfsFastDataRow) → Among x ys → Among x (xs ++ ys)
Among-append x [] ys h = h
Among-append x (y ∷ xs) ys h = inr (Among-append x xs ys h)

Among-front :
    (x : FastfsFastDataRow) (xs ys : List FastfsFastDataRow) → Among x xs → Among x (xs ++ ys)
Among-front x [] ys h = absurd h
Among-front x (y ∷ xs) ys (inl here) = inl here
Among-front x (y ∷ xs) ys (inr h) = inr (Among-front x xs ys h)

module _ (ids : Ids) {W E : Type 0} (no_attempts : E) (from_slice : Bytes → Result FastfsData E)
    (db : Database W E) where
  -- The loop passes a sequence of updates and goes on.
  pub data Steps : List (SuffixFetcherUpdate ids × Bool) → Loop W → Loop W → Type 0 where
    done : (loop : Loop W) → Steps [] loop loop
    step :
        (update : SuffixFetcherUpdate ids) (stopped : Bool)
        {updates : List (SuffixFetcherUpdate ids × Bool)} (loop loop' loop'' : Loop W)
        → handle ids no_attempts from_slice db update stopped loop ≡ continue loop'
        → Steps updates loop' loop''
        → Steps ((update, stopped) ∷ updates) loop loop''

  -- The row of an upload that is accepted, if there is one.
  abbrev row_of : Stored ids → List FastfsFastDataRow
  row_of (entry e) = elim (to_row ids e) [ none ↦ [] | some row ↦ row ∷ [] ]
  row_of _ = []

  abbrev pub rows_of : SuffixFetcherUpdate ids → List FastfsFastDataRow
  rows_of (end_of_range height) = []
  rows_of (fast_data fd) = elim (from_slice fd.bytes) [
    | err e ↦ []
    | ok value ↦ row_of (stored ids fd value)
  ]

  abbrev pub accepted : List (SuffixFetcherUpdate ids × Bool) → List FastfsFastDataRow
  accepted [] = []
  accepted ((update, stopped) ∷ updates) = rows_of update ++ accepted updates

  -- What outlives the insertion of a row outlives its retries.
  module _ (P : W → Type 0) (row : FastfsFastDataRow)
      (insert_keeps : (w : W) → P w → P (db.insert row w).1) where
    Fail-keeps : (k : ℕ) (w w' : W) → Fail (db.insert row) k w w' → P w → P w'
    Fail-keeps _ w _ (start _) h = h
    Fail-keeps _ w w' (fail _ _ e failed rest) h =
        Fail-keeps _ (db.insert row w).1 w' rest (insert_keeps w h)

    retry-keeps : (w : W) → P w → P (retry_with_delays no_attempts (db.insert row) delays w).state
    retry-keeps w h = elim (retry_with_delays_lem (db.insert row) no_attempts delays w) [
      | inl (none_given, _, _) ↦ absurd (ground (arith, none_given))
      | inr (inl (k, _, (w', _, failed, _, last, _))) ↦
          subst P (sym last) (insert_keeps w' (Fail-keeps k w w' failed h))
      | inr (inr (k, _, (w', _, failed, _, last, _))) ↦
          subst P (sym last) (insert_keeps w' (Fail-keeps k w w' failed h))
    ]

  -- What a successful insertion leaves is there behind retries that succeed.
  retry-leaves :
      (P : W → Type 0) (row : FastfsFastDataRow) (w : W) (u : Unit {0})
      → ((w : W) (u : Unit {0}) → (db.insert row w).0 ≡ ok u → P (db.insert row w).1)
      → (retry_with_delays no_attempts (db.insert row) delays w).result ≡ returned (ok u)
      → P (retry_with_delays no_attempts (db.insert row) delays w).state
  retry-leaves P row w u leaves h =
      elim (retry_with_delays_lem (db.insert row) no_attempts delays w) [
        | inl (none_given, _, _) ↦ absurd (ground (arith, none_given))
        | inr (inl (k, _, (w', v, failed, succeeded, last, _))) ↦
            subst P (sym last) (leaves w' v succeeded)
        | inr (inr (k, _, (w', e, failed, _, last, result))) ↦ absurd (ground (arith, h, result))
      ]

  module _ (at : W → PrimaryKey → Option FastfsFastDataRow) (laws : IsTable db at) where
    -- The row with the primary key of `row` is one of the rows.
    abbrev pub IsHeld : List FastfsFastDataRow → FastfsFastDataRow → W → Type 0
    IsHeld rows row w =
        (other : FastfsFastDataRow) × Among other rows
        × (primary_key other ≡ primary_key row)
        × (at w (primary_key row) ≡ some other)

    insert-IsHeld :
        (rows : List FastfsFastDataRow) (row row' : FastfsFastDataRow)
        → Among row' rows
        → (w : W) → IsHeld rows row w
        → IsHeld rows row (db.insert row' w).1
    insert-IsHeld rows row row' among w (other, there, same, held) =
        elim (laws.insert_upserts row' (primary_key row) w) [
          | inl untouched ↦ (other, there, same, untouched ∙ held)
          | inr (equal, replaced) ↦ (row', among, sym equal, replaced)
        ]

    checkpoint-IsHeld :
        (rows : List FastfsFastDataRow) (row : FastfsFastDataRow) (height : ℕ) (ds : List ℕ) (w : W)
        → IsHeld rows row w
        → IsHeld rows row (write_checkpoint ids no_attempts from_slice db height ds w).1
    checkpoint-IsHeld rows row height [] w h = unfold write_checkpoint in h
    checkpoint-IsHeld rows row height (d ∷ ds) w (other, there, equal, held) =
        let h' : IsHeld rows row (db.set_last_processed_block_height height w).1 =
          (other, there, equal, laws.set_keeps height (primary_key row) w ∙ held) in
        elim (Result-cases (db.set_last_processed_block_height height w).0) [
          | inl (u, good) ↦
              subst (IsHeld rows row)
                (sym (checkpoint_ok ids no_attempts from_slice db height d ds w u good)) h'
          | inr (e, bad) ↦
              subst (IsHeld rows row)
                (sym (checkpoint_err ids no_attempts from_slice db height d ds w e bad))
                (checkpoint-IsHeld rows row height ds _ h')
        ]

    rows_of-entry :
        (fd : FastData ids) (value : FastfsData) (e : FastfsFastData ids) (row : FastfsFastDataRow)
        → from_slice fd.bytes ≡ ok value
        → stored ids fd value ≡ entry e
        → to_row ids e ≡ some row
        → row ∷ [] ≡ rows_of (fast_data fd)
    rows_of-entry fd value e row good s fit = ground (arith, good, ap row_of s, fit)

    -- What one update that the loop passes leaves behind, if its row is one of the rows.
    handle-IsHeld :
        (rows : List FastfsFastDataRow) (row : FastfsFastDataRow) (update : SuffixFetcherUpdate ids)
        (stopped : Bool) (loop loop' : Loop W)
        → ((x : FastfsFastDataRow) → Among x (rows_of update) → Among x rows)
        → handle ids no_attempts from_slice db update stopped loop ≡ continue loop'
        → IsHeld rows row loop.database
        → IsHeld rows row loop'.database
    handle-IsHeld rows row (end_of_range height) stopped loop loop' inside e h =
        subst (IsHeld rows row)
          (sym (
            passes_end ids no_attempts from_slice db height stopped loop loop'
              (unfold handle in e)))
          (checkpoint-IsHeld rows row height delays loop.database h)
    handle-IsHeld rows row (fast_data fd) stopped loop loop' inside e h =
        let h' : handle_fast_data ids no_attempts from_slice db fd loop ≡ continue loop' =
          unfold handle in e in
        elim (Result-cases (from_slice fd.bytes)) [
          | inr (x, bad) ↦
              subst (λ l. IsHeld rows row l.database)
                (sym (passes_unparsed ids no_attempts from_slice db fd x loop loop' bad h')) h
          | inl (value, good) ↦
              elim (Stored-cases ids no_attempts from_slice db (stored ids fd value)) [
                | inl s ↦
                    subst (λ l. IsHeld rows row l.database)
                      (sym (
                        passes_skipped ids no_attempts from_slice db fd value loop loop' good s h'))
                      h
                | inr (inr s) ↦
                    absurd
                      (passes_too_long ids no_attempts from_slice db fd value loop loop' good s h')
                | inr (inl (entry', s)) ↦
                    let (row', _, fit, _, w) =
                      passes_entry ids no_attempts from_slice db fd value entry' loop loop' good s
                        h' in
                    let among : Among row' rows = inside row' (
                      subst (Among row') (rows_of-entry fd value entry' row' good s fit)
                        (inl refl)) in
                    subst (IsHeld rows row) (sym w) (
                      retry-keeps (IsHeld rows row) row' (insert-IsHeld rows row row' among)
                        loop.database h)
              ]
        ]

    Steps-IsHeld :
        (rows : List FastfsFastDataRow) (row : FastfsFastDataRow)
        (updates : List (SuffixFetcherUpdate ids × Bool)) (loop loop' : Loop W)
        → ((x : FastfsFastDataRow) → Among x (accepted updates) → Among x rows)
        → Steps updates loop loop'
        → IsHeld rows row loop.database
        → IsHeld rows row loop'.database
    Steps-IsHeld rows row [] loop loop' inside (done _) h = h
    Steps-IsHeld rows row _ loop loop' inside (step update stopped {updates} _ next _ e rest) h =
        Steps-IsHeld rows row updates next loop'
          (λ x k. inside x (Among-append x (rows_of update) (accepted updates) k)) rest
          (handle-IsHeld rows row update stopped loop next
            (λ x k. inside x (Among-front x (rows_of update) (accepted updates) k)) e h)

    -- The entry of an upload fits a row, and the row with the primary key of that is it or one of the
    -- later rows.
    abbrev pub Stores :
        Loop W → SuffixFetcherUpdate ids → List (SuffixFetcherUpdate ids × Bool) → Type 0
    Stores loop (end_of_range height) later = Unit
    Stores loop (fast_data fastdata) later =
        (value : FastfsData) (e : FastfsFastData ids)
        → from_slice fastdata.bytes ≡ ok value
        → stored ids fastdata value ≡ entry e
        → (row : FastfsFastDataRow) × (to_row ids e ≡ some row)
          × IsHeld (row ∷ accepted later) row loop.database

    abbrev pub AllStored : Loop W → List (SuffixFetcherUpdate ids × Bool) → Type 0
    AllStored loop [] = Unit
    AllStored loop ((update, stopped) ∷ updates) =
        Stores loop update updates × AllStored loop updates

    -- Over a table in which an insertion replaces the row with the same primary key: if the loop has passed a sequence of
    -- updates, then for each accepted upload among them the table has a row with the primary key of the upload's
    -- row, which is that row or the row of a later accepted upload with this key. So it is when the loop
    -- comes to write the checkpoint that follows.
    pub Steps-Stores :
        (updates : List (SuffixFetcherUpdate ids × Bool)) (loop loop' : Loop W)
        → Steps updates loop loop'
        → AllStored loop' updates
    Steps-Stores [] loop loop' (done _) = tt
    Steps-Stores _ loop loop' (step (end_of_range height) stopped {updates} _ next _ e rest) =
        (tt, Steps-Stores updates next loop' rest)
    Steps-Stores _ loop loop' (step (fast_data fd) stopped {updates} _ next _ e rest) = (
      (λ value e' good s.
          let (row, u, fit, result, w) =
            passes_entry ids no_attempts from_slice db fd value e' loop next good s
              (unfold handle in e) in
          let rows = row ∷ accepted updates in
          (
            row,
            fit,
            Steps-IsHeld rows row updates next loop' (λ x k. inr k) rest
                (subst (IsHeld rows row) (sym w) (
                  retry-leaves (IsHeld rows row) row loop.database u
                    (λ w' v fine. (row, inl refl, refl, laws.inserted row w' v fine)) result)),
          )),
      Steps-Stores updates next loop' rest,
    )
