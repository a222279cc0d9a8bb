-- ===== src/Server/Validate/Laws.antt =====
-- When each check passes.
use key_manager.Base.{
  ℕ, ◌≤◌, ◌<◌, Option, none, some, [], ◌∷◌, ok, err, ◌>>◌, refuse, ltb, arith, ◌≡◌, refl, ◌↔◌,
}
use key_manager.Base.Text.{Str, len}
use key_manager.Base.Decimal.{ℤ, pos, negsuc}
use key_manager.Server.Validate.{
  Check, passed, max_offset, max_prefix_length, max_account_id_length, validate_account_id,
  validate_key, validate_limit, validate_cursor_or_offset, validate_block_range, validate_prefix,
}

pub len-pos : (c : ℕ) (s : Str) → 0 < len (c ∷ s)
unfolding len
len-pos c s = ground arith

abbrev pub Passes : Check → Type 0
Passes c = c ≡ passed

-- One check after another passes if both do.
pub >>-Passes : (m k : Check) → Passes (m >> k) ↔ (Passes m × Passes k)
>>-Passes (ok tt') k = (λ h. (refl, h), λ h. h.1)
>>-Passes (err e) k = ground arith

-- A text of 1 to `most` bytes.
abbrev pub Sized : ℕ → Str → Type 0
Sized most s = (0 < len s) × (len s ≤ most)

-- A key passes exactly if it is nonempty and at most `max_len` bytes long.
pub validate_key_iff :
    (value name : Str) (max_len : ℕ)
    → Passes (validate_key value name max_len) ↔ Sized max_len value
unfolding validate_key
validate_key_iff [] name m = unfold len in (λ h. cc, λ h. absurd (omega (arith, h.0)))
validate_key_iff (c ∷ s) name m = (λ h. (len-pos c s, ground arith), λ h. ground (arith, h.1))

pub validate_account_id_iff :
    (value name : Str) → Passes (validate_account_id value name) ↔ Sized max_account_id_length value
unfolding validate_account_id
validate_account_id_iff [] name = unfold len in (λ h. cc, λ h. absurd (omega (arith, h.0)))
validate_account_id_iff (c ∷ s) name = (λ h. (len-pos c s, ground arith), λ h. ground (arith, h.1))

-- A limit passes exactly from 1 to 1000.
pub validate_limit_iff :
    (limit : ℕ) → Passes (validate_limit limit) ↔ ((1 ≤ limit) × (limit ≤ 1000))
unfolding validate_limit
validate_limit_iff limit = ground arith

-- A prefix is left out or has 1 to 1000 bytes.
abbrev pub PrefixFits : Option Str → Type 0
PrefixFits none = Unit
PrefixFits (some p) = Sized max_prefix_length p

pub validate_prefix_iff :
    (prefix : Option Str) → Passes (validate_prefix prefix) ↔ PrefixFits prefix
unfolding validate_prefix
validate_prefix_iff none = ground arith
validate_prefix_iff (some []) = unfold len in (λ h. cc, λ h. absurd (omega (arith, h.0)))
validate_prefix_iff (some (c ∷ s)) = (λ h. (len-pos c s, ground arith), λ h. ground (arith, h.1))

-- Bounds that are given are not negative, and in order.
abbrev pub RangeFits : Option ℤ → Option ℤ → Type 0
RangeFits none none = Unit
RangeFits (some (pos a)) none = Unit
RangeFits none (some (pos b)) = Unit
RangeFits (some (pos a)) (some (pos b)) = a ≤ b
RangeFits _ _ = ⊥

-- A range of blocks passes exactly if no end that is given is negative and, if both are given, the
-- first is not above the second.
pub validate_block_range_iff :
    (from to : Option ℤ) → Passes (validate_block_range from to) ↔ RangeFits from to
unfolding validate_block_range
validate_block_range_iff none none = ground arith
validate_block_range_iff (some (pos a)) none = ground arith
validate_block_range_iff none (some (pos b)) = ground arith
validate_block_range_iff (some (pos a)) (some (pos b)) = ground arith
validate_block_range_iff none (some (negsuc b)) = ground arith
validate_block_range_iff (some (negsuc a)) none = ground arith
validate_block_range_iff (some (negsuc a)) (some b) = ground arith
validate_block_range_iff (some (pos a)) (some (negsuc b)) = ground arith

-- A cursor that is accepted comes with no offset; with no cursor the offset is bounded.
abbrev pub CursorFits : (Str → Type 0) → Option Str → ℕ → Type 0
CursorFits P none offset = offset ≤ max_offset
CursorFits P (some c) offset = P c × (offset ≡ 0)

-- With a check of cursors that passes exactly those of which P holds: a cursor passes exactly if P
-- holds of it and no offset comes with it, and an offset alone exactly up to 100,000.
pub validate_cursor_or_offset_iff :
    (P : Str → Type 0) (check : Str → Str → Check) (cursor : Option Str) (name : Str) (offset : ℕ)
    → ((c : Str) → Passes (check c name) ↔ P c)
    → Passes (validate_cursor_or_offset cursor name offset check) ↔ CursorFits P cursor offset
unfolding validate_cursor_or_offset
validate_cursor_or_offset_iff P check none name offset h = ground arith
validate_cursor_or_offset_iff P check (some c) name offset h =
    let split = >>-Passes (check c name) (refuse (ltb 0 offset) _ >> passed) in
    (
      λ k. let (checked, alone) = split.0 k in ((h c).0 checked, ground (arith, alone)),
      λ k. split.1 ((h c).1 k.0, ground (arith, k.1)),
    )
