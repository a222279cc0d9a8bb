-- ===== src/Server/Prefix/Laws.antt =====
-- Which keys the range of a prefix holds.
use key_manager.Base.{
  ◌≤◌, ◌≡◌, ◌≢◌, refl, inl, inr, ◌↔◌, true, false, ◌&&◌, [], ◌∷◌, All, arith, Bool-cases, some,
  none,
}
use key_manager.Base.Text.{Str}
use key_manager.Server.Prefix.{compute_prefix_end, before, in_prefix_range, selects}

-- The rest of the key behind the prefix does not begin with U+10FFFF.
abbrev pub Extends : Str → Str → Type 0
Extends [] [] = Unit
Extends [] (c ∷ key) = c ≢ 0x10ffff
Extends (p ∷ prefix) [] = ⊥
Extends (p ∷ prefix) (c ∷ key) = (c ≡ p) × Extends prefix key

-- The range holds exactly the keys that begin with the prefix, unless they go on with U+10FFFF.
pub in_prefix_range_iff :
    (prefix key : Str)
    → All (λ c. c ≤ 0x10ffff) key
    → (in_prefix_range prefix key ≡ true) ↔ Extends prefix key
unfolding in_prefix_range before compute_prefix_end
in_prefix_range_iff [] [] h = ground arith
in_prefix_range_iff [] (c ∷ []) (h, hs) = ground (arith, h)
in_prefix_range_iff [] (c ∷ d ∷ key) (h, hs) = ground (arith, h)
in_prefix_range_iff (p ∷ prefix) [] h = ground arith
in_prefix_range_iff (p ∷ prefix) (c ∷ key) (h, hs) =
    let rest = in_prefix_range_iff prefix key hs in
    ((λ k. (ground (arith, k), rest.0 (ground (arith, k)))), λ (e, k). ground (arith, e, rest.1 k))

-- What comes after a text with the prefix is not before the prefix.
after_prefix :
    (prefix cursor key : Str)
    → Extends prefix cursor
    → before cursor key ≡ true
    → before key prefix ≡ false
unfolding before
after_prefix [] cursor key h k = refl
after_prefix (p ∷ prefix) [] key h k = absurd h
after_prefix (p ∷ prefix) (c ∷ cursor) [] h k = absurd (ground (arith, k))
after_prefix (p ∷ prefix) (c ∷ cursor) (d ∷ key) (e, h) k =
    ground (arith, e, k, after_prefix prefix cursor key h)

selects_ext :
    (prefix cursor key : Str)
    → Extends prefix cursor
    → selects (some prefix) (some cursor) key
      ≡ (selects (some prefix) none key && before cursor key)
unfolding selects in_prefix_range
selects_ext prefix cursor key h = elim (Bool-cases (before cursor key)) [
  | inl after ↦ ground (arith, after, after_prefix prefix cursor key h after)
  | inr not_after ↦ ground (arith, not_after)
]

-- A page with a prefix that starts behind a cursor, if the cursor itself has the prefix, selects
-- exactly the keys that the prefix alone selects and that come after the cursor: those that begin
-- with the prefix and do not go on with U+10FFFF. A cursor without the prefix may select others.
pub selects_iff :
    (prefix cursor key : Str)
    → Extends prefix cursor
    → All (λ c. c ≤ 0x10ffff) key
    → (selects (some prefix) (some cursor) key ≡ true)
      ↔ (Extends prefix key × (before cursor key ≡ true))
selects_iff prefix cursor key h k =
    let same = selects_ext prefix cursor key h in
    let range = in_prefix_range_iff prefix key k in
    (
      (λ e. (range.0 (unfold selects in ground (arith, e, same)), ground (arith, e, same))),
      λ (x, y). unfold selects in ground (arith, same, y, range.1 x),
    )
