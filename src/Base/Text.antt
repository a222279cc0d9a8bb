-- ===== src/Base/Text.antt =====
-- Rust's `str` and `&[u8]`. A text is the list of its Unicode scalar values; `len` and `as_bytes`
-- go through its UTF-8 encoding, as `str::len` and `str::as_bytes` do.
pub mod Laws
pub mod Utf8
use Prim.Native.Nat.{ℕ, suc, ◌+◌, ◌-◌, ◌*◌, ◌/◌, ◌%◌}
use Prim.Native.Char.{code}
use Prim.Native.String.{String}
use mathlib.Core.Path.{◌≡◌, refl, ap}
use mathlib.Core.Logic.{◌↔◌}
use mathlib.Core.Bool.{Bool, true, false, not, ◌&&◌, ◌||◌}
use mathlib.Core.Option.{Option, none, some}
use mathlib.Core.List.{List, [], ◌∷◌, ◌++◌, reverse}
use native.Mathlib.Omega.{arith}
use key_manager.Base.Bools.{ltb, leb, ◌==◌, if◌then◌else◌}
use key_manager.Base.Lists.{length, all, any}

abbrev pub Str : Type 0
Str = List ℕ

abbrev pub Bytes : Type 0
Bytes = List ℕ

-- A text literal.
abbrev pub codes : String → Str
codes String.[] = []
codes (String.◌∷◌ c s) = code c ∷ codes s

-- The UTF-8 encoding of one scalar value.
abbrev pub utf8 : ℕ → Bytes
utf8 c =
    if ltb c 0x80
    then c ∷ []
    else if ltb c 0x800
    then (0xc0 + c / 64) ∷ (0x80 + c % 64) ∷ []
    else if ltb c 0x1_0000
    then (0xe0 + c / 4096) ∷ (0x80 + c / 64 % 64) ∷ (0x80 + c % 64) ∷ []
    else (0xf0 + c / 262144) ∷ (0x80 + c / 4096 % 64) ∷ (0x80 + c / 64 % 64) ∷ (0x80 + c % 64) ∷ []

unfoldable pub as_bytes : Str → Bytes
as_bytes [] = []
as_bytes (c ∷ s) = utf8 c ++ as_bytes s

unfoldable pub len : Str → ℕ
len [] = 0
len (c ∷ s) = length (utf8 c) + len s

infix 50 ◌==ₛ◌
unfoldable pub ◌==ₛ◌ : Str → Str → Bool
[] ==ₛ [] = true
[] ==ₛ (d ∷ t) = false
(c ∷ s) ==ₛ [] = false
(c ∷ s) ==ₛ (d ∷ t) = (c == d) && (s ==ₛ t)

unfoldable pub starts_with : Str → Str → Bool
starts_with s [] = true
starts_with [] (p ∷ ps) = false
starts_with (c ∷ s) (p ∷ ps) = (c == p) && starts_with s ps

unfoldable pub strip_prefix : Str → Str → Option Str
strip_prefix s [] = some s
strip_prefix [] (p ∷ ps) = none
strip_prefix (c ∷ s) (p ∷ ps) = if c == p then strip_prefix s ps else none

unfoldable pub ends_with : Str → Str → Bool
unfolding starts_with
ends_with s p = starts_with (reverse s) (reverse p)

unfoldable pub contains_char : Str → ℕ → Bool
contains_char s c = any (λ d. d == c) s

-- `split(c)`: the pieces between the separators, one more than there are separators.
push_front : ℕ → List Str → List Str
push_front c [] = (c ∷ []) ∷ []
push_front c (p ∷ ps) = (c ∷ p) ∷ ps

unfoldable pub split : ℕ → Str → List Str
unfolding push_front
split sep [] = [] ∷ []
split sep (c ∷ s) = let rest = split sep s in if c == sep then [] ∷ rest else push_front c rest

-- `split_once(c)`: the text before and behind the first separator.
unfoldable pub split_once : ℕ → Str → Option (Str × Str)
split_once sep [] = none
split_once sep (c ∷ s) =
    if c == sep
    then some ([], s)
    else elim (split_once sep s) [ none ↦ none | some (a, b) ↦ some (c ∷ a, b) ]

unfoldable pub is_ascii : Str → Bool
is_ascii s = all (λ c. ltb c 128) s

-- `char::is_ascii_control`, and `char::is_control` (the category Cc)
abbrev pub is_ascii_control : ℕ → Bool
is_ascii_control c = ltb c 32 || c == 127

abbrev pub is_control : ℕ → Bool
is_control c = ltb c 32 || (leb 127 c && ltb c 160)

abbrev pub is_ascii_alphanumeric : ℕ → Bool
is_ascii_alphanumeric c =
    (leb b'0' c && leb c b'9') || (leb b'A' c && leb c b'Z') || (leb b'a' c && leb c b'z')

-- The validating UTF-8 decoder of `String::from_utf8`. Between two bytes it is at a boundary, or
-- inside a sequence: bytes still due, the range of the next byte, the bits read so far.
pub data Decoder : Type 0 where
  boundary : Decoder
  inside : (due low high bits : ℕ) → Decoder

pub data DecodeStep : Type 0 where
  bad : DecodeStep
  scalar : ℕ → DecodeStep
  go_on : Decoder → DecodeStep

unfoldable pub decode_byte : Decoder → ℕ → DecodeStep
decode_byte boundary b =
    if ltb b 0x80
    then scalar b
    else if ltb b 0xc2
    then bad
    else if ltb b 0xe0
    then go_on (inside 1 0x80 0xbf (b - 0xc0))
    else if b == 0xe0
    then go_on (inside 2 0xa0 0xbf 0)
    else if b == 0xed
    then go_on (inside 2 0x80 0x9f 0xd)
    else if ltb b 0xf0
    then go_on (inside 2 0x80 0xbf (b - 0xe0))
    else if b == 0xf0
    then go_on (inside 3 0x90 0xbf 0)
    else if ltb b 0xf4
    then go_on (inside 3 0x80 0xbf (b - 0xf0))
    else if b == 0xf4
    then go_on (inside 3 0x80 0x8f 4)
    else bad
decode_byte (inside due low high bits) b =
    if leb low b && leb b high
    then (if leb due 1
        then scalar (bits * 64 + (b - 0x80))
        else go_on (inside (due - 1) 0x80 0xbf (bits * 64 + (b - 0x80))))
    else bad

unfoldable pub decode : Decoder → Bytes → Option Str
decode boundary [] = some []
decode (inside _ _ _ _) [] = none
decode d (b ∷ bs) = elim (decode_byte d b) [
  | bad ↦ none
  | scalar c ↦ elim (decode boundary bs) [ none ↦ none | some s ↦ some (c ∷ s) ]
  | go_on d' ↦ decode d' bs
]

unfoldable pub from_utf8 : Bytes → Option Str
unfolding decode decode_byte
from_utf8 bytes = decode boundary bytes
