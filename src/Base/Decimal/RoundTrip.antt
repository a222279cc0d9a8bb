-- ===== src/Base/Decimal/RoundTrip.antt =====
-- A printed integer is read back.
use Prim.Native.Nat.{ℕ, zero, suc, ◌+◌, ◌-◌, ◌*◌, ◌/◌, ◌%◌, ◌≤◌, ◌<◌, ◌^◌}
use mathlib.Core.Path.{◌≡◌, refl, ap, ◌∙◌}
use mathlib.Core.Logic.{inl, inr}
use mathlib.Core.Bool.{true, false, ◌&&◌}
use mathlib.Core.Option.{some}
use mathlib.Core.List.{[], ◌∷◌}
use native.Mathlib.Omega.{arith}
use key_manager.Base.Bools.{ltb, leb, ◌==◌, Bool-cases}
use key_manager.Base.Lists.{All}
use key_manager.Base.Text.{Str}
use key_manager.Base.Decimal.{
  positive, negative, ℤ, pos, negsuc, i64_max, u64_max, digits, show, show_int, is_digit,
  scan_digits, parse_digits, parse_u64, parse_i64,
}

abbrev pub IsDigit : ℕ → Type 0
IsDigit c = (b'0' ≤ c) × (c ≤ b'9')

scan_one :
    (limit n m c : ℕ) (s : Str)
    → IsDigit c
    → n * 10 + (c - b'0') ≡ m
    → m ≤ limit
    → scan_digits limit n (c ∷ s) ≡ scan_digits limit m s
unfolding scan_digits
scan_one limit n m c s (lo, hi) e h =
    let test : (is_digit c && leb (n * 10 + (c - b'0')) limit) ≡ true = ground arith in
    rw test (ap (λ k. scan_digits limit k s) e)

digits_small : (fuel n : ℕ) (out : Str) → n < 10 → digits (suc fuel) n out ≡ (b'0' + n) ∷ out
unfolding digits
digits_small fuel n out h = ground arith

digits_big :
    (fuel n : ℕ) (out : Str)
    → 10 ≤ n
    → digits (suc fuel) n out ≡ digits fuel (n / 10) ((b'0' + n % 10) ∷ out)
unfolding digits
digits_big fuel n out h = ground arith

-- Reading the digits of `n` is the same as being at `n` already.
scan_digits-digits :
    (fuel limit n : ℕ) (out : Str)
    → n < fuel
    → n ≤ limit
    → scan_digits limit 0 (digits fuel n out) ≡ scan_digits limit n out
scan_digits-digits zero limit n out h k = absurd (omega arith)
scan_digits-digits (suc fuel) limit n out h k = elim (Bool-cases (ltb n 10)) [
  | inl small ↦
      rw (digits_small fuel n out (ground arith))
        (scan_one limit 0 n (b'0' + n) out (omega arith, ground arith) (omega arith) k)
  | inr big ↦ rw (digits_big fuel n out (ground arith)) (
      scan_digits-digits fuel limit (n / 10) ((b'0' + n % 10) ∷ out) (ground arith) (omega arith)
      ∙ scan_one limit (n / 10) n (b'0' + n % 10) out (omega arith, omega arith) (omega arith) k)
]

-- What is printed begins with a digit, and holds digits only.
abbrev pub Digits : Str → Type 0
Digits [] = ⊥
Digits (c ∷ s) = IsDigit c × All IsDigit s

digits-Digits : (fuel n : ℕ) (out : Str) → n < fuel → All IsDigit out → Digits (digits fuel n out)
digits-Digits zero n out h k = absurd (omega arith)
digits-Digits (suc fuel) n out h k = elim (Bool-cases (ltb n 10)) [
  | inl small ↦ rw (digits_small fuel n out (ground arith)) ((omega arith, ground arith), k)
  | inr big ↦ rw (digits_big fuel n out (ground arith)) (
      digits-Digits fuel (n / 10) ((b'0' + n % 10) ∷ out) (ground arith)
        ((omega arith, omega arith), k))
]

pub show-Digits : (n : ℕ) → Digits (show n)
unfolding show
show-Digits n = digits-Digits (suc n) n [] (omega arith) tt

parse_digits-scan_digits :
    (limit : ℕ) (s : Str) → Digits s → parse_digits limit s ≡ scan_digits limit 0 s
unfolding parse_digits
parse_digits-scan_digits limit [] h = absurd h
parse_digits-scan_digits limit (c ∷ s) h = refl

pub parse_digits-show : (limit n : ℕ) → n ≤ limit → parse_digits limit (show n) ≡ some n
unfolding show
parse_digits-show limit n h =
    parse_digits-scan_digits limit (show n) (show-Digits n)
    ∙ scan_digits-digits (suc n) limit n [] (omega arith) h
    ∙ unfold scan_digits in refl

-- A text that begins with a digit has no sign.
parse_i64-Digits : (s : Str) → Digits s → parse_i64 s ≡ positive (parse_digits i64_max s)
unfolding parse_i64
parse_i64-Digits [] h = absurd h
parse_i64-Digits (c ∷ s) (h, k) =
    let minus : (c == b'-') ≡ false = ground arith in
    let plus : (c == b'+') ≡ false = ground arith in rw (minus, plus)

parse_u64-Digits : (s : Str) → Digits s → parse_u64 s ≡ parse_digits u64_max s
unfolding parse_u64
parse_u64-Digits [] h = absurd h
parse_u64-Digits (c ∷ s) (h, k) = let plus : (c == b'+') ≡ false = ground arith in rw plus

pub parse_u64-show : (n : ℕ) → n ≤ u64_max → parse_u64 (show n) ≡ some n
parse_u64-show n h = parse_u64-Digits (show n) (show-Digits n) ∙ parse_digits-show u64_max n h

abbrev pub IsI64 : ℤ → Type 0
IsI64 (pos n) = n ≤ i64_max
IsI64 (negsuc n) = n ≤ i64_max

-- Every i64 is read back from its decimal print.
pub parse_i64-show_int : (z : ℤ) → IsI64 z → parse_i64 (show_int z) ≡ some z
unfolding show_int
parse_i64-show_int (pos n) h =
    parse_i64-Digits (show n) (show-Digits n) ∙ ap positive (parse_digits-show i64_max n h)
parse_i64-show_int (negsuc n) h =
    unfold parse_i64 in ap negative (parse_digits-show (2 ^ 63) (suc n) (omega arith))
