-- ===== src/Server/Page.antt =====
-- `collect_page` of fastkv-server/src/scylladb.rs. The stream is the list of what it yields; the
-- closure `transform` may change captured variables, so it takes and returns their values.
pub mod Laws
pub mod Cap
use key_manager.Base.{
  ℕ, suc, ◌+◌, Bool, true, false, ◌&&◌, not, Option, none, some, List, [], ◌∷◌, ◌++◌, Result, ok,
  err, length, take, ltb, leb, if◌then◌else◌, is_some,
}

pub record PageResult {ℓ} (T : Type ℓ) : Type ℓ where
  pub items : List T
  pub has_more : Bool
  pub truncated : Bool
  pub dropped_rows : ℕ

-- The local variables of the loop, the closure's among them.
pub record Locals {ℓ} (C T : Type ℓ) : Type ℓ where
  pub captured : C
  pub items : List T
  pub dropped_rows : ℕ
  pub skipped : ℕ
  pub scanned : ℕ
  pub truncated : Bool

-- One round of the loop goes on or breaks.
pub data Round {ℓ} (C T : Type ℓ) : Type ℓ where
  continue : Locals C T → Round C T
  break : Locals C T → Round C T

abbrev over_cap : Option ℕ → ℕ → Bool
over_cap none scanned = false
over_cap (some cap) scanned = ltb cap scanned

-- `scanned` counts only where a cap is given
abbrev count_row : Option ℕ → ℕ → ℕ
count_row none scanned = scanned
count_row (some cap) scanned = scanned + 1

module _ {ℓ} {C T : Type ℓ} (limit offset : ℕ) (scan_cap : Option ℕ) where
  unfoldable pub keep : Locals C T → Option T → Round C T
  keep v none = continue v
  keep v (some item) =
      if not (is_some scan_cap) && ltb v.skipped offset
      then continue (record v { skipped = v.skipped + 1 })
      else (let v' = record v { items = v.items ++ item ∷ [] } in
          if not (is_some scan_cap) && ltb limit (length v'.items) then break v' else continue v')

module _ {ℓ} {C R T E : Type ℓ} (limit offset : ℕ) (scan_cap : Option ℕ)
    (transform : C → R → Option T × C) where
  unfoldable pub read : Locals C T → Result R E → Round C T
  unfolding keep
  read v (err e) = continue (record v { dropped_rows = v.dropped_rows + 1 })
  read v (ok row) =
      let (item, captured) = transform v.captured row in
      keep limit offset scan_cap (record v { captured = captured }) item

  unfoldable pub round : Locals C T → Result R E → Round C T
  unfolding read
  round v row_result =
      let v' = record v { scanned = count_row scan_cap v.scanned } in
      if over_cap scan_cap v'.scanned
      then break (record v' { truncated = true })
      else read v' row_result

  unfoldable pub scan : List (Result R E) → Locals C T → Locals C T
  unfolding round
  scan [] v = v
  scan (row ∷ rows) v = elim (round v row) [ continue v' ↦ scan rows v' | break v' ↦ v' ]

  unfoldable pub collect_page : C → List (Result R E) → PageResult T
  unfolding scan
  collect_page captured stream =
      let v = scan stream (record {
        captured = captured;
        items = [];
        dropped_rows = 0;
        skipped = 0;
        scanned = 0;
        truncated = false;
      }) in
      let over = not (is_some scan_cap) && ltb limit (length v.items) in
      record {
        items = if is_some scan_cap then v.items else take limit v.items;
        has_more = over;
        truncated = v.truncated;
        dropped_rows = v.dropped_rows;
      }
