-- ===== src/Base/Text/Utf8.antt =====
-- Decoding the UTF-8 encoding of a text gives the text back.
use Prim.Native.Nat.{ℕ, suc, ◌+◌, ◌-◌, ◌*◌, ◌/◌, ◌%◌, ◌≤◌, ◌<◌}
use mathlib.Core.Path.{◌≡◌, refl, ap, ◌∙◌}
use mathlib.Core.Logic.{◌⊎◌, inl, inr}
use mathlib.Core.Option.{Option, none, some}
use mathlib.Core.List.{[], ◌∷◌, ◌++◌}
use native.Mathlib.Omega.{arith}
use key_manager.Base.Bools.{ltb, ◌==◌, Bool-cases}
use key_manager.Base.Lists.{All}
use key_manager.Base.Text.{
  Str, Bytes, utf8, as_bytes, Decoder, boundary, inside, scalar, go_on, decode_byte, decode,
  from_utf8,
}

-- A Unicode scalar value: a code point that is no surrogate.
abbrev pub IsScalar : ℕ → Type 0
IsScalar c = (c < 0xd800) ⊎ ((0xe000 ≤ c) × (c < 0x11_0000))

abbrev push : ℕ → Option Str → Option Str
push c none = none
push c (some s) = some (c ∷ s)

decode-scalar :
    (d : Decoder) (b c : ℕ) (bs : Bytes)
    → decode_byte d b ≡ scalar c
    → decode d (b ∷ bs) ≡ push c (decode boundary bs)
unfolding decode
decode-scalar boundary b c bs e = ground (arith, e)
decode-scalar (inside n l h x) b c bs e = ground (arith, e)

decode-go_on :
    (d d' : Decoder) (b : ℕ) (bs : Bytes)
    → decode_byte d b ≡ go_on d'
    → decode d (b ∷ bs) ≡ decode d' bs
unfolding decode
decode-go_on boundary d' b bs e = ground (arith, e)
decode-go_on (inside n l h x) d' b bs e = ground (arith, e)

one : (c : ℕ) → c < 0x80 → decode_byte boundary c ≡ scalar c
unfolding decode_byte
one c h = ground arith

-- the last byte of a sequence
final :
    (l h x c : ℕ)
    → l ≤ 0x80 + c % 64
    → 0x80 + c % 64 ≤ h
    → x ≡ c / 64
    → decode_byte (inside 1 l h x) (0x80 + c % 64) ≡ scalar c
unfolding decode_byte
final l h x c p q e = ground arith

-- a byte in the middle of a sequence
middle :
    (due l h x b y : ℕ)
    → l ≤ b
    → b ≤ h
    → x * 64 + (b - 0x80) ≡ y
    → decode_byte (inside (suc (suc due)) l h x) b ≡ go_on (inside (suc due) 0x80 0xbf y)
unfolding decode_byte
middle due l h x b y p q e = ground arith

head_two :
    (c : ℕ)
    → 0x80 ≤ c
    → c < 0x800
    → decode_byte boundary (0xc0 + c / 64) ≡ go_on (inside 1 0x80 0xbf (c / 64))
unfolding decode_byte
head_two c p q = ground arith

-- A leading byte opens a sequence whose next byte is accepted.
abbrev Opens : ℕ → ℕ → ℕ → ℕ → Type 0
Opens due first bits second =
    (l : ℕ) × (h : ℕ) × (decode_byte boundary first ≡ go_on (inside due l h bits))
    × (l ≤ second)
    × (second ≤ h)

head_three :
    (c : ℕ)
    → 0x800 ≤ c
    → c < 0x1_0000
    → IsScalar c
    → Opens 2 (0xe0 + c / 4096) (c / 4096) (0x80 + c / 64 % 64)
unfolding decode_byte
head_three c p q v = elim (Bool-cases (ltb c 0x1000)) [
  | inl low ↦ (0xa0, 0xbf, ground arith, ground arith, ground arith)
  | inr high ↦ elim (Bool-cases (c / 4096 == 0xd)) [
    | inl d ↦ (0x80, 0x9f, ground arith, ground arith, ground arith)
    | inr other ↦ (0x80, 0xbf, ground arith, ground arith, ground arith)
  ]
]

head_four :
    (c : ℕ)
    → 0x1_0000 ≤ c
    → c < 0x11_0000
    → Opens 3 (0xf0 + c / 262144) (c / 262144) (0x80 + c / 4096 % 64)
unfolding decode_byte
head_four c p q = elim (Bool-cases (ltb c 0x4_0000)) [
  | inl low ↦ (0x90, 0xbf, ground arith, ground arith, ground arith)
  | inr high ↦ elim (Bool-cases (ltb c 0x10_0000)) [
    | inl d ↦ (0x80, 0xbf, ground arith, ground arith, ground arith)
    | inr other ↦ (0x80, 0x8f, ground arith, ground arith, ground arith)
  ]
]

two_bytes :
    (c : ℕ) (bs : Bytes)
    → 0x80 ≤ c
    → c < 0x800
    → decode boundary ((0xc0 + c / 64) ∷ (0x80 + c % 64) ∷ bs) ≡ push c (decode boundary bs)
two_bytes c bs p q =
    decode-go_on boundary (inside 1 0x80 0xbf (c / 64)) (0xc0 + c / 64) _ (head_two c p q)
    ∙ decode-scalar (inside 1 0x80 0xbf (c / 64)) (0x80 + c % 64) c bs
        (final 0x80 0xbf (c / 64) c (omega arith) (omega arith) refl)

three_bytes :
    (c : ℕ) (bs : Bytes)
    → 0x800 ≤ c
    → c < 0x1_0000
    → IsScalar c
    → decode boundary ((0xe0 + c / 4096) ∷ (0x80 + c / 64 % 64) ∷ (0x80 + c % 64) ∷ bs)
      ≡ push c (decode boundary bs)
three_bytes c bs p q v =
    let (l, h, opens, low, high) = head_three c p q v in
    decode-go_on boundary (inside 2 l h (c / 4096)) (0xe0 + c / 4096) _ opens
    ∙ decode-go_on (inside 2 l h (c / 4096)) (inside 1 0x80 0xbf (c / 64)) (0x80 + c / 64 % 64) _
        (middle 0 l h (c / 4096) (0x80 + c / 64 % 64) (c / 64) low high (omega arith))
    ∙ decode-scalar (inside 1 0x80 0xbf (c / 64)) (0x80 + c % 64) c bs
        (final 0x80 0xbf (c / 64) c (omega arith) (omega arith) refl)

four_bytes :
    (c : ℕ) (bs : Bytes)
    → 0x1_0000 ≤ c
    → c < 0x11_0000
    → decode boundary
        ((0xf0 + c / 262144) ∷ (0x80 + c / 4096 % 64) ∷ (0x80 + c / 64 % 64) ∷ (0x80 + c % 64) ∷ bs)
      ≡ push c (decode boundary bs)
four_bytes c bs p q =
    let (l, h, opens, low, high) = head_four c p q in
    decode-go_on boundary (inside 3 l h (c / 262144)) (0xf0 + c / 262144) _ opens
    ∙ decode-go_on (inside 3 l h (c / 262144)) (inside 2 0x80 0xbf (c / 4096))
        (0x80 + c / 4096 % 64) _
        (middle 1 l h (c / 262144) (0x80 + c / 4096 % 64) (c / 4096) low high (omega arith))
    ∙ decode-go_on (inside 2 0x80 0xbf (c / 4096)) (inside 1 0x80 0xbf (c / 64))
        (0x80 + c / 64 % 64) _
        (middle 0 0x80 0xbf (c / 4096) (0x80 + c / 64 % 64) (c / 64) (omega arith) (omega arith)
          (omega arith))
    ∙ decode-scalar (inside 1 0x80 0xbf (c / 64)) (0x80 + c % 64) c bs
        (final 0x80 0xbf (c / 64) c (omega arith) (omega arith) refl)

decode-utf8 :
    (c : ℕ) (bs : Bytes) → IsScalar c → decode boundary (utf8 c ++ bs) ≡ push c (decode boundary bs)
decode-utf8 c bs v = elim (Bool-cases (ltb c 0x80)) [
  | inl one_byte ↦ rw one_byte (decode-scalar boundary c c bs (one c (ground arith)))
  | inr more ↦ rw more (elim (Bool-cases (ltb c 0x800)) [
    | inl two ↦ rw two (two_bytes c bs (ground arith) (ground arith))
    | inr more' ↦ rw more' (elim (Bool-cases (ltb c 0x1_0000)) [
      | inl three ↦ rw three (three_bytes c bs (ground arith) (ground arith) v)
      | inr four ↦ rw four (four_bytes c bs (ground arith) (ground arith))
    ])
  ])
]

-- Every text of scalar values is read back from its bytes.
pub from_utf8-as_bytes : (s : Str) → All IsScalar s → from_utf8 (as_bytes s) ≡ some s
unfolding from_utf8 as_bytes
from_utf8-as_bytes [] h = refl
from_utf8-as_bytes (c ∷ s) (hc, hs) =
    decode-utf8 c (as_bytes s) hc ∙ ap (push c) (from_utf8-as_bytes s hs)

-- Two texts with the same bytes are the same text.
pub as_bytes-injective :
    (s t : Str) → All IsScalar s → All IsScalar t → as_bytes s ≡ as_bytes t → s ≡ t
as_bytes-injective s t hs ht e = cc (from_utf8-as_bytes s hs, from_utf8-as_bytes t ht)
