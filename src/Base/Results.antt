-- ===== src/Base/Results.antt =====
-- Rust's `Result` and `Option` with the `?` operator.
use mathlib.Core.Path.{◌≡◌, refl}
use mathlib.Core.Logic.{◌⊎◌, inl, inr}
use mathlib.Core.Bool.{Bool, true, false}
use mathlib.Core.Option.{Option, none, some}

pub data Result {ℓ κ} (A : Type ℓ) (E : Type κ) : Type (ℓ ⊔ κ) where
  ok : A → Result A E
  err : E → Result A E

pub Result-cases {ℓ κ} :
    {A : Type ℓ} {E : Type κ} (result : Result A E)
    → ((value : A) × (result ≡ ok value)) ⊎ ((why : E) × (result ≡ err why))
Result-cases (ok value) = inl (value, refl)
Result-cases (err why) = inr (why, refl)

abbrev pub is_ok {ℓ κ} : {A : Type ℓ} {E : Type κ} → Result A E → Bool
is_ok (ok value) = true
is_ok (err why) = false

abbrev pub map_err {ℓ κ} : {A : Type ℓ} {E F : Type κ} → (E → F) → Result A E → Result A F
map_err change (ok value) = ok value
map_err change (err why) = err (change why)

-- `?`, the bind of `do`
infixl 5 ◌>>=◌
abbrev pub ◌>>=◌ {ℓ κ} : {A B : Type ℓ} {E : Type κ} → Result A E → (A → Result B E) → Result B E
err why >>= next = err why
ok value >>= next = next value

infixl 5 ◌>>◌
abbrev pub ◌>>◌ {ℓ κ} : {A B : Type ℓ} {E : Type κ} → Result A E → Result B E → Result B E
first >> second = first >>= λ ignored. second

-- `if test { return Err(e) }`
abbrev pub refuse {κ} : {E : Type κ} → Bool → E → Result (Unit {0}) E
refuse false why = ok tt
refuse true why = err why

abbrev pub is_some {ℓ} : {A : Type ℓ} → Option A → Bool
is_some none = false
is_some (some a) = true

abbrev pub unwrap_or {ℓ} : {A : Type ℓ} → Option A → A → A
unwrap_or none d = d
unwrap_or (some a) d = a
