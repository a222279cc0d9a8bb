-- ===== src/Server/Page/Cap.antt =====
-- What `collect_page` returns where the number of scanned rows is capped.
use key_manager.Base.{
  ℕ, zero, suc, ◌+◌, true, false, ◌≡◌, refl, sym, ◌∙◌, Option, none, some, List, [], ◌∷◌, ◌++◌,
  Result, ok, err, length, take, ltb, arith, append-nil, append_assoc,
}
use key_manager.Server.Page.{Locals, keep, round, scan, collect_page}
use key_manager.Server.Page.Laws.{valid, unreadable, add, resume, scan-cons}

module _ {ℓ} {C R T E : Type ℓ} (limit offset cap : ℕ) (transform : C → R → Option T × C) where
  -- What the scan of `rows` adds to the locals, with the cap `left` rows away.
  abbrev Scanned : ℕ → List (Result R E) → Locals C T → Type ℓ
  Scanned left rows v =
      ((scan limit offset (some cap) transform rows v).items
        ≡ v.items ++ valid transform v.captured (take left rows))
      × ((scan limit offset (some cap) transform rows v).dropped_rows
          ≡ v.dropped_rows + unreadable (take left rows))
      × ((scan limit offset (some cap) transform rows v).truncated ≡ ltb left (length rows))

  keep-Scanned :
      (left : ℕ) (rows : List (Result R E)) (v : Locals C T) (o : Option T)
      → ((w : Locals C T) → w.scanned ≡ v.scanned → w.truncated ≡ false → Scanned left rows w)
      → v.truncated ≡ false
      → let w = resume limit offset (some cap) transform rows (keep limit offset (some cap) v o) in
        (w.items ≡ v.items ++ add o (valid transform v.captured (take left rows)))
        × (w.dropped_rows ≡ v.dropped_rows + unreadable (take left rows))
        × (w.truncated ≡ ltb left (length rows))
  unfolding keep
  keep-Scanned left rows v none ih t = ih v refl t
  keep-Scanned left rows v (some x) ih t =
      let (a, b, c) = ih (record v { items = v.items ++ x ∷ [] }) refl t in
      (a ∙ append_assoc v.items (x ∷ []) _, b, c)

  scan-Scanned :
      (left : ℕ) (rows : List (Result R E)) (v : Locals C T)
      → v.scanned + left ≡ cap
      → v.truncated ≡ false
      → Scanned left rows v
  unfolding valid unreadable round
  scan-Scanned zero [] v e t = unfold scan in (sym (append-nil v.items), omega arith, t)
  scan-Scanned (suc left) [] v e t =
      unfold scan in (sym (append-nil v.items), omega arith, ground (arith, t))
  scan-Scanned zero (row ∷ rows) v e t =
      let over : ltb cap (v.scanned + 1) ≡ true = ground arith in
      rw (scan-cons limit offset (some cap) transform row rows v)
        (rw over (sym (append-nil v.items), omega arith, ground arith))
  scan-Scanned (suc left) (err x ∷ rows) v e t =
      let under : ltb cap (v.scanned + 1) ≡ false = ground arith in
      let (a, b, c) =
        scan-Scanned left rows
          (record v { dropped_rows = v.dropped_rows + 1; scanned = v.scanned + 1 }) (omega arith)
          t in
      rw (scan-cons limit offset (some cap) transform (err x) rows v)
        (rw under (a, omega (arith, b), ground (arith, c)))
  scan-Scanned (suc left) (ok row ∷ rows) v e t =
      let under : ltb cap (v.scanned + 1) ≡ false = ground arith in
      let v' = record v { scanned = v.scanned + 1; captured = (transform v.captured row).1 } in
      let (a, b, c) =
        keep-Scanned left rows v' (transform v.captured row).0
          (λ w s t'. scan-Scanned left rows w (omega arith) t') t in
      rw (scan-cons limit offset (some cap) transform (ok row) rows v)
        (rw under (a, b, ground (arith, c)))

  -- With a cap a page holds every valid item of the first `cap` rows, whatever the offset and the
  -- limit are; it counts the unreadable rows among those, and is truncated exactly if more rows
  -- than the cap were there.
  pub collect_page-cap :
      (captured : C) (stream : List (Result R E))
      → let page = collect_page limit offset (some cap) transform captured stream in
        (page.items ≡ valid transform captured (take cap stream))
        × (page.dropped_rows ≡ unreadable (take cap stream))
        × (page.truncated ≡ ltb cap (length stream))
        × (page.has_more ≡ false)
  unfolding collect_page
  collect_page-cap captured stream =
      let v : Locals C T = record {
        captured = captured;
        items = [];
        dropped_rows = 0;
        skipped = 0;
        scanned = 0;
        truncated = false;
      } in
      let (a, b, c) = scan-Scanned cap stream v (omega arith) refl in (a, omega (arith, b), c, refl)
