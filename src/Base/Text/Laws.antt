-- ===== src/Base/Text/Laws.antt =====
-- What the functions on text do, stated with `++`.
use Prim.Native.Nat.{ℕ, ◌+◌}
use mathlib.Core.Path.{◌≡◌, refl, sym, ap, ◌∙◌}
use mathlib.Core.Logic.{◌↔◌, ◌≢◌, ◌⊎◌, inl, inr}
use mathlib.Core.Bool.{true}
use mathlib.Core.Option.{none, some}
use mathlib.Core.List.{List, [], ◌∷◌, ◌++◌, reverse, reverse-append, reverse-reverse, append_assoc}
use native.Mathlib.Omega.{arith}
use key_manager.Base.Bools.{◌==◌, ==_iff, Bool-cases, and_true, Option-cases}
use key_manager.Base.Lists.{length, length-append, All}
use key_manager.Base.Text.{
  Str, ◌==ₛ◌, starts_with, strip_prefix, ends_with, push_front, split, split_once, len, as_bytes,
  utf8,
}

-- The texts are compared scalar by scalar.
pub ==ₛ_iff : (s t : Str) → ((s ==ₛ t) ≡ true) ↔ (s ≡ t)
unfolding ◌==ₛ◌
==ₛ_iff [] [] = ground arith
==ₛ_iff [] (d ∷ t) = ground arith
==ₛ_iff (c ∷ s) [] = ground arith
==ₛ_iff (c ∷ s) (d ∷ t) = ground (arith, ==ₛ_iff s t)

pub ==ₛ_refl : (s : Str) → (s ==ₛ s) ≡ true
==ₛ_refl s = (==ₛ_iff s s).1 refl

pub starts_with-append : (p r : Str) → starts_with (p ++ r) p ≡ true
unfolding starts_with
starts_with-append [] r = refl
starts_with-append (c ∷ p) r = ground (arith, starts_with-append p r)

pub starts_with→append : (s p : Str) → starts_with s p ≡ true → (r : Str) × (s ≡ p ++ r)
unfolding starts_with
starts_with→append s [] h = (s, refl)
starts_with→append [] (p ∷ ps) h = absurd (ground arith)
starts_with→append (c ∷ s) (p ∷ ps) h =
    let (same, more) = and_true (c == p) (starts_with s ps) h in
    let (r, e) = starts_with→append s ps more in (r, cc ((==_iff c p).0 same, e))

pub strip_prefix-append : (p r : Str) → strip_prefix (p ++ r) p ≡ some r
unfolding strip_prefix
strip_prefix-append [] r = refl
strip_prefix-append (c ∷ p) r = ground (arith, strip_prefix-append p r)

pub strip_prefix→append : (s p r : Str) → strip_prefix s p ≡ some r → s ≡ p ++ r
unfolding strip_prefix
strip_prefix→append s [] r h = ground arith
strip_prefix→append [] (p ∷ ps) r h = absurd (ground arith)
strip_prefix→append (c ∷ s) (p ∷ ps) r h = ground (arith, strip_prefix→append s ps r)

pub ends_with-append : (r p : Str) → ends_with (r ++ p) p ≡ true
unfolding ends_with
ends_with-append r p = rw reverse-append (starts_with-append (reverse p) (reverse r))

pub ends_with→append : (s p : Str) → ends_with s p ≡ true → (r : Str) × (s ≡ r ++ p)
unfolding ends_with
ends_with→append s p h =
    let (r, e) = starts_with→append (reverse s) (reverse p) h in
    (
      reverse r,
      sym (reverse-reverse s)
          ∙ ap reverse e
          ∙ reverse-append (reverse p) r
          ∙ ap (λ q. reverse r ++ q) (reverse-reverse p),
    )

-- No scalar of the text is the separator.
abbrev pub Lacks : ℕ → Str → Type 0
Lacks sep = All (λ c. c ≢ sep)

-- `split_once` cuts at the first separator.
pub split_once→append :
    (sep : ℕ) (s a b : Str) → split_once sep s ≡ some (a, b) → (s ≡ a ++ sep ∷ b) × Lacks sep a
unfolding split_once
split_once→append sep [] a b h = absurd (ground arith)
split_once→append sep (c ∷ s) [] b h = ground arith
split_once→append sep (c ∷ s) (d ∷ a) b h = ground (arith, split_once→append sep s a b)

pub split_once-append :
    (sep : ℕ) (a b : Str) → Lacks sep a → split_once sep (a ++ sep ∷ b) ≡ some (a, b)
unfolding split_once
split_once-append sep [] b h = ground arith
split_once-append sep (c ∷ a) b (hc, h) = ground (arith, split_once-append sep a b h)

pub split_once-none : (sep : ℕ) (s : Str) → split_once sep s ≡ none → Lacks sep s
unfolding split_once
split_once-none sep [] h = tt
split_once-none sep (c ∷ s) h = ground (arith, split_once-none sep s)

-- The pieces of a split hold no separator.
push_front-Lacks :
    (sep c : ℕ) (ps : List Str) → c ≢ sep → All (Lacks sep) ps → All (Lacks sep) (push_front c ps)
unfolding push_front
push_front-Lacks sep c [] h k = ((h, tt), tt)
push_front-Lacks sep c (p ∷ ps) h (k, ks) = ((h, k), ks)

pub split-Lacks : (sep : ℕ) (s : Str) → All (Lacks sep) (split sep s)
unfolding split
split-Lacks sep [] = (tt, tt)
split-Lacks sep (c ∷ s) = elim (Bool-cases (c == sep)) [
  | inl same ↦ rw same (tt, split-Lacks sep s)
  | inr other ↦ rw other (push_front-Lacks sep c (split sep s) (ground arith) (split-Lacks sep s))
]

-- The first piece of a split is the text before the first separator.
pub split-append : (sep : ℕ) (a b : Str) → Lacks sep a → split sep (a ++ sep ∷ b) ≡ a ∷ split sep b
unfolding split push_front
split-append sep [] b h = ground arith
split-append sep (c ∷ a) b (hc, h) = ground (arith, split-append sep a b h)

pub split-Lacks_self : (sep : ℕ) (a : Str) → Lacks sep a → split sep a ≡ a ∷ []
unfolding split push_front
split-Lacks_self sep [] h = refl
split-Lacks_self sep (c ∷ a) (hc, h) = ground (arith, split-Lacks_self sep a h)

pub len-append : (s t : Str) → len (s ++ t) ≡ len s + len t
unfolding len
len-append [] t = omega arith
len-append (c ∷ s) t = omega (arith, len-append s t)

-- The length of a text is the number of its bytes.
pub length-as_bytes : (s : Str) → length (as_bytes s) ≡ len s
unfolding len as_bytes
length-as_bytes [] = refl
length-as_bytes (c ∷ s) =
    length-append (utf8 c) (as_bytes s) ∙ ap (λ n. length (utf8 c) + n) (length-as_bytes s)

pub as_bytes-append : (s t : Str) → as_bytes (s ++ t) ≡ as_bytes s ++ as_bytes t
unfolding as_bytes
as_bytes-append [] t = refl
as_bytes-append (c ∷ s) t =
    ap (λ b. utf8 c ++ b) (as_bytes-append s t)
    ∙ sym (append_assoc (utf8 c) (as_bytes s) (as_bytes t))

-- A split returns the text itself, or cuts at the first separator and splits the rest.
pub split_shape :
    (sep : ℕ) (s : Str)
    → (Lacks sep s × (split sep s ≡ s ∷ []))
      ⊎ ((a : Str) × (b : Str) × Lacks sep a × (s ≡ a ++ sep ∷ b) × (split sep s ≡ a ∷ split sep b))
split_shape sep s = elim (Option-cases (split_once sep s)) [
  | inl never ↦ let h = split_once-none sep s never in inl (h, split-Lacks_self sep s h)
  | inr ((a, b), e) ↦
      let (shape, lacks) = split_once→append sep s a b e in
      inr (a, b, lacks, shape, ap (split sep) shape ∙ split-append sep a b lacks)
]

pub split-ne-nil : (sep : ℕ) (s : Str) → split sep s ≢ []
unfolding split push_front
split-ne-nil sep [] = cc
split-ne-nil sep (c ∷ s) = ground (arith, split-ne-nil sep s)

-- A separator at the end cuts off an empty piece.
pub split-append_end :
    (sep : ℕ) (r : Str)
    → (p : Str) × (ps : List Str) × (split sep (r ++ sep ∷ []) ≡ p ∷ (ps ++ [] ∷ []))
unfolding split push_front
split-append_end sep [] = ([], [], ground arith)
split-append_end sep (c ∷ r) =
    let (p, ps, e) = split-append_end sep r in
    elim (Bool-cases (c == sep)) [
      | inl h ↦ ([], p ∷ ps, ground (arith, e, h))
      | inr h ↦ (c ∷ p, ps, ground (arith, e, h))
    ]
