-- ===== src/Server/Page/Laws.antt =====
-- What a page holds, stated without the loop.
use key_manager.Base.{
  ℕ, zero, suc, ◌+◌, ◌-◌, ◌≤◌, ◌<◌, false, ◌≡◌, refl, sym, ap, ◌∙◌, Option, none, some, List, [],
  ◌∷◌, ◌++◌, Result, ok, err, length, take, drop, ltb, arith, append-nil, append_assoc, Bool-cases,
  inl, inr, length-append, length-take, take_all, tests,
}
use key_manager.Server.Page.{Locals, Round, continue, break, keep, round, scan, collect_page}

abbrev pub add {ℓ} : {T : Type ℓ} → Option T → List T → List T
add none xs = xs
add (some x) xs = x ∷ xs

module _ {ℓ} {C R T E : Type ℓ} (transform : C → R → Option T × C) where
  -- Every item that the rows give, in their order, with the rows that could not be read left out.
  unfoldable pub valid : C → List (Result R E) → List T
  valid c [] = []
  valid c (err e ∷ rows) = valid c rows
  valid c (ok row ∷ rows) = add (transform c row).0 (valid (transform c row).1 rows)

-- How many rows could not be read.
unfoldable pub unreadable {ℓ} : {R E : Type ℓ} → List (Result R E) → ℕ
unreadable [] = 0
unreadable (err e ∷ rows) = suc (unreadable rows)
unreadable (ok r ∷ rows) = unreadable rows

module _ {ℓ} {T : Type ℓ} where
  take_front :
      (n : ℕ) (xs ys : List T) (x : T) → n ≡ length xs → take (suc n) (xs ++ x ∷ ys) ≡ xs ++ x ∷ []
  take_front n [] ys x e = rw e
  take_front zero (z ∷ xs) ys x e = absurd (omega arith)
  take_front (suc n) (z ∷ xs) ys x e = ap (λ t. z ∷ t) (take_front n xs ys x (omega arith))

  -- the front has room: nothing is cut
  take_short : (n : ℕ) (xs : List T) → length xs ≤ n → take (suc n) (xs ++ []) ≡ xs
  take_short n xs h = rw append-nil (take_all (suc n) xs (omega arith))

  take-take : (n : ℕ) (xs : List T) → take n (take (suc n) xs) ≡ take n xs
  take-take zero xs = refl
  take-take (suc n) [] = refl
  take-take (suc n) (x ∷ xs) = ap (λ t. x ∷ t) (take-take n xs)

  ltb-length-take : (n : ℕ) (xs : List T) → ltb n (length (take (suc n) xs)) ≡ ltb n (length xs)
  ltb-length-take n xs = ground (arith, length-take (suc n) xs)

  drop-nil : (n : ℕ) → drop {A = T} n [] ≡ []
  drop-nil zero = refl
  drop-nil (suc n) = refl

  -- the two ends of a round that keeps an item and goes on
  shift :
      (n : ℕ) (xs ys : List T) (x : T) → n ≡ 0 → (xs ++ x ∷ []) ++ drop n ys ≡ xs ++ drop n (x ∷ ys)
  shift n xs ys x e = rw e (append_assoc xs (x ∷ []) ys)

  skip_one : (o k : ℕ) (ys : List T) (x : T) → k < o → drop (o - (k + 1)) ys ≡ drop (o - k) (x ∷ ys)
  skip_one o k ys x h = let e : o - k ≡ suc (o - (k + 1)) = omega arith in rw e

module _ {ℓ} {C R T E : Type ℓ} (limit offset : ℕ) (scan_cap : Option ℕ)
    (transform : C → R → Option T × C) where
  -- the loop after a round
  abbrev pub resume : List (Result R E) → Round C T → Locals C T
  resume rows (continue v) = scan limit offset scan_cap transform rows v
  resume rows (break v) = v

  pub scan-cons :
      (row : Result R E) (rows : List (Result R E)) (v : Locals C T)
      → scan limit offset scan_cap transform (row ∷ rows) v
        ≡ resume rows (round limit offset scan_cap transform v row)
  unfolding scan
  scan-cons row rows v = ground arith

module _ {ℓ} {C R T E : Type ℓ} (limit offset : ℕ) (transform : C → R → Option T × C) where
  abbrev Page : List (Result R E) → Locals C T → Type ℓ
  Page rows v =
      length v.items ≤ limit
      → v.skipped ≤ offset
      → (v.skipped < offset → v.items ≡ [])
      → (scan limit offset none transform rows v).items
        ≡ take (suc limit) (v.items ++ drop (offset - v.skipped) (valid transform v.captured rows))

  keep-items :
      (rows : List (Result R E)) (v : Locals C T) (o : Option T)
      → ((w : Locals C T) → Page rows w)
      → length v.items ≤ limit
      → v.skipped ≤ offset
      → (v.skipped < offset → v.items ≡ [])
      → (resume limit offset none transform rows (keep limit offset none v o)).items
        ≡ take
            (suc limit)
            (v.items ++ drop (offset - v.skipped) (add o (valid transform v.captured rows)))
  unfolding keep
  keep-items rows v none ih a b c = ih v a b c
  keep-items rows v (some x) ih a b c =
      let rest = valid transform v.captured rows in
      elim (Bool-cases (ltb v.skipped offset)) [
        | inl more ↦ rw more (
            ih (record v { skipped = v.skipped + 1 }) a (ground arith) (λ h. c (ground arith))
            ∙ ap (λ t. take (suc limit) (v.items ++ t))
                (skip_one offset v.skipped rest x (ground arith)))
        | inr done ↦ rw done (elim (Bool-cases (ltb limit (length (v.items ++ x ∷ [])))) [
          | inl full ↦ rw full (
              let gap : offset - v.skipped ≡ 0 = ground arith in
              sym (
                ap (λ k. take (suc limit) (v.items ++ drop k (x ∷ rest))) gap
                ∙ take_front limit v.items rest x (omega (tests, length-append v.items (x ∷ [])))))
          | inr room ↦ rw room (
              ih (record v { items = v.items ++ x ∷ [] }) (ground arith) b
                (λ h. absurd (ground arith))
              ∙ ap (take (suc limit)) (shift (offset - v.skipped) v.items rest x (ground arith)))
        ])
      ]

  scan-items : (rows : List (Result R E)) (v : Locals C T) → Page rows v
  unfolding valid round
  scan-items [] v a b c = unfold scan in rw drop-nil (sym (take_short limit v.items a))
  scan-items (err e ∷ rows) v a b c =
      rw (scan-cons limit offset none transform (err e) rows v)
        (scan-items rows (record v { dropped_rows = v.dropped_rows + 1 }) a b c)
  scan-items (ok row ∷ rows) v a b c = rw (scan-cons limit offset none transform (ok row) rows v) (
      keep-items rows (record v { captured = (transform v.captured row).1 })
        (transform v.captured row).0 (scan-items rows) a b c)

  keep-truncated :
      (rows : List (Result R E)) (v : Locals C T) (o : Option T)
      → ((w : Locals C T) → (scan limit offset none transform rows w).truncated ≡ w.truncated)
      → (resume limit offset none transform rows (keep limit offset none v o)).truncated
        ≡ v.truncated
  unfolding keep
  keep-truncated rows v none ih = ih v
  keep-truncated rows v (some x) ih = ground (
    arith,
    ih (record v { skipped = v.skipped + 1 }),
    ih (record v { items = v.items ++ x ∷ [] }),
  )

  scan-truncated :
      (rows : List (Result R E)) (v : Locals C T)
      → (scan limit offset none transform rows v).truncated ≡ v.truncated
  unfolding round
  scan-truncated [] v = unfold scan in refl
  scan-truncated (err e ∷ rows) v =
      rw (scan-cons limit offset none transform (err e) rows v)
        (scan-truncated rows (record v { dropped_rows = v.dropped_rows + 1 }))
  scan-truncated (ok row ∷ rows) v = rw (scan-cons limit offset none transform (ok row) rows v) (
      keep-truncated rows (record v { captured = (transform v.captured row).1 })
        (transform v.captured row).0 (scan-truncated rows))

  -- Without a cap a page is the plain slice of the valid items: the offset is skipped, at most
  -- `limit` items are kept, `has_more` tells whether one more was there, and nothing is truncated.
  pub collect_page-slice :
      (captured : C) (stream : List (Result R E))
      → let items = drop offset (valid transform captured stream) in
        ((collect_page limit offset none transform captured stream).items ≡ take limit items)
        × ((collect_page limit offset none transform captured stream).has_more
            ≡ ltb limit (length items))
        × ((collect_page limit offset none transform captured stream).truncated ≡ false)
  unfolding collect_page
  collect_page-slice captured stream =
      let v : Locals C T = record {
        captured = captured;
        items = [];
        dropped_rows = 0;
        skipped = 0;
        scanned = 0;
        truncated = false;
      } in
      let items = drop offset (valid transform captured stream) in
      let no_offset : offset - 0 ≡ offset = omega arith in
      let found : (scan limit offset none transform stream v).items ≡ take (suc limit) items =
        scan-items stream v (omega arith) (omega arith) (λ h. refl)
        ∙ ap (λ k. take (suc limit) (drop k (valid transform captured stream))) no_offset in
      (
        ap (take limit) found ∙ take-take limit items,
        ap (λ xs. ltb limit (length xs)) found ∙ ltb-length-take limit items,
        scan-truncated stream v,
      )
