-- ===== src/Server/Tests.antt =====
-- The checks, cursors and pages at concrete parameters.
use key_manager.Base.{
  true, refl, ℕ, ◌≡◌, ◌↔◌, ◌+◌, false, Option, none, some, List, [], ◌∷◌, Result, ok, err, length,
  take, drop, ltb, leb, arith, if◌then◌else◌,
}
use key_manager.Base.Text.{Str, codes, ◌==ₛ◌}
use key_manager.Server.Prefix.{before, compute_prefix_end, selects}
use key_manager.Server.Prefix.Laws.{Extends, selects_iff}
use key_manager.Server.Throttle.{Throttle, too_many, check_scan_throttle}
use key_manager.Server.Throttle.Laws.{check_scan_throttle-again}
use key_manager.Server.Page.{collect_page}
use key_manager.Server.Page.Laws.{valid, collect_page-slice}

-- Rows up to 10 pass; one row cannot be read.
abbrev small_rows : ℕ → ℕ → Option ℕ × ℕ
small_rows seen row = (if leb row 10 then some row else none, seen + 1)

abbrev rows : List (Result ℕ Str)
rows = ok 3 ∷ ok 40 ∷ err [] ∷ ok 5 ∷ ok 7 ∷ ok 9 ∷ []

collect_page-slice_example :
    let items = drop 1 (valid small_rows 0 rows) in
    ((collect_page 2 1 none small_rows 0 rows).items ≡ take 2 items)
    × ((collect_page 2 1 none small_rows 0 rows).has_more ≡ ltb 2 (length items))
    × ((collect_page 2 1 none small_rows 0 rows).truncated ≡ false)
collect_page-slice_example = collect_page-slice 2 1 small_rows 0 rows

selects_iff_example :
    (selects (some (codes "a/")) (some (codes "a/b")) (codes "a/c") ≡ true)
    ↔ (Extends (codes "a/") (codes "a/c") × (before (codes "a/b") (codes "a/c") ≡ true))
selects_iff_example =
    selects_iff (codes "a/") (codes "a/b") (codes "a/c") (ground arith) (ground arith)

-- A cursor without the prefix lets keys without it through.
selects_outside : selects (some (codes "b/")) (some (codes "a")) (codes "aa") ≡ true
unfolding selects before compute_prefix_end
selects_outside = refl

abbrev one_client : Throttle
one_client = (codes "10.0.0.1", 5) ∷ []

admits : (check_scan_throttle one_client (codes "10.0.0.2") 7).0 ≡ ok tt
unfolding check_scan_throttle ◌==ₛ◌
admits = refl

check_scan_throttle-again_example :
    (check_scan_throttle
      (check_scan_throttle one_client (codes "10.0.0.2") 7).1
      (codes "10.0.0.2")
      900).0
    ≡ err too_many
check_scan_throttle-again_example =
    check_scan_throttle-again one_client (codes "10.0.0.2") 7 900 admits (omega arith) (omega arith)
