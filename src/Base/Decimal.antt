-- ===== src/Base/Decimal.antt =====
-- Rust's decimal `Display` and `FromStr` of integers.
pub mod RoundTrip
use Prim.Native.Nat.{ℕ, zero, suc, ◌+◌, ◌-◌, ◌*◌, ◌/◌, ◌%◌, ◌^◌}
use mathlib.Core.Path.{◌≡◌, refl}
use mathlib.Core.Bool.{Bool, true, false, ◌&&◌}
use mathlib.Core.Option.{Option, none, some}
use mathlib.Core.List.{List, [], ◌∷◌, ◌++◌}
use key_manager.Base.Bools.{ltb, leb, ◌==◌, if◌then◌else◌}
use key_manager.Base.Text.{Str, codes}

-- `negsuc n` is -(n + 1).
pub data ℤ : Type 0 where
  pos : ℕ → ℤ
  negsuc : ℕ → ℤ

abbrev pub i64_max : ℕ
i64_max = 2 ^ 63 - 1

abbrev pub u64_max : ℕ
u64_max = 2 ^ 64 - 1

-- The digits of `n` in front of `out`, with more fuel than `n`.
unfoldable pub digits : ℕ → ℕ → Str → Str
digits zero n out = out
digits (suc fuel) n out = elim (ltb n 10) [
  | true ↦ (b'0' + n) ∷ out
  | false ↦ digits fuel (n / 10) ((b'0' + n % 10) ∷ out)
]

unfoldable pub show : ℕ → Str
unfolding digits
show n = digits (suc n) n []

unfoldable pub show_int : ℤ → Str
unfolding show
show_int (pos n) = show n
show_int (negsuc n) = b'-' ∷ show (suc n)

abbrev pub is_digit : ℕ → Bool
is_digit c = leb b'0' c && leb c b'9'

-- Digits read behind `n`, with an error where the value passes `limit`.
unfoldable pub scan_digits : ℕ → ℕ → Str → Option ℕ
scan_digits limit n [] = some n
scan_digits limit n (c ∷ s) =
    if is_digit c && leb (n * 10 + (c - b'0')) limit
    then scan_digits limit (n * 10 + (c - b'0')) s
    else none

-- One digit at least.
unfoldable pub parse_digits : ℕ → Str → Option ℕ
unfolding scan_digits
parse_digits limit [] = none
parse_digits limit (c ∷ s) = scan_digits limit 0 (c ∷ s)

-- `str::parse::<u64>`: a sign `+` is allowed.
unfoldable pub parse_u64 : Str → Option ℕ
unfolding parse_digits
parse_u64 [] = none
parse_u64 (c ∷ s) = if c == b'+' then parse_digits u64_max s else parse_digits u64_max (c ∷ s)

abbrev pub negative : Option ℕ → Option ℤ
negative none = none
negative (some zero) = some (pos 0)
negative (some (suc n)) = some (negsuc n)

abbrev pub positive : Option ℕ → Option ℤ
positive none = none
positive (some n) = some (pos n)

-- `str::parse::<i64>`
unfoldable pub parse_i64 : Str → Option ℤ
unfolding parse_digits
parse_i64 [] = none
parse_i64 (c ∷ s) =
    if c == b'-'
    then negative (parse_digits (2 ^ 63) s)
    else if c == b'+'
    then positive (parse_digits i64_max s)
    else positive (parse_digits i64_max (c ∷ s))
