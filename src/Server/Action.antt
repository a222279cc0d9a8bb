-- ===== src/Server/Action.antt =====
-- Code that changes a state and may fail: the state stays changed after an error.
use key_manager.Base.{◌≡◌, ◌⊎◌, inl, inr, Bool, Result, ok, err, arith, Result-cases, if◌then◌else◌}

abbrev pub Action : Type 0 → Type 0 → Type 0 → Type 0
Action W E A = W → Result A E × W

module _ {W E : Type 0} where
  abbrev pub pure : {A : Type 0} → A → Action W E A
  pure a w = (ok a, w)

  -- a result that does not touch the state
  abbrev pub from_result : {A : Type 0} → Result A E → Action W E A
  from_result r w = (r, w)

  infixl 5 ◌>>=◌ ◌>>◌
  unfoldable pub ◌>>=◌ : {A B : Type 0} → Action W E A → (A → Action W E B) → Action W E B
  (m >>= k) w = elim (m w).0 [ ok a ↦ k a (m w).1 | err e ↦ (err e, (m w).1) ]

  abbrev pub ◌>>◌ : {A B : Type 0} → Action W E A → Action W E B → Action W E B
  m >> k = m >>= λ ignored. k

  -- `if test { return Err(e) }`
  abbrev pub refuse_if : Bool → E → Action W E (Unit {0})
  refuse_if test why w = (if test then err why else ok tt, w)

  -- A chain that succeeds has succeeded in its first part and then in the rest.
  pub bind_ok :
      {A B : Type 0} (m : Action W E A) (k : A → Action W E B) (w : W) (b : B)
      → ((m >>= k) w).0 ≡ ok b
      → (a : A) × ((m w).0 ≡ ok a) × ((k a (m w).1).0 ≡ ok b)
  unfolding ◌>>=◌
  bind_ok m k w b h = elim (Result-cases (m w).0) [
    | inl (a, good) ↦ (a, good, ground (arith, good, h))
    | inr (e, bad) ↦ absurd (ground (arith, bad, h))
  ]

  -- A chain that fails has failed in its first part, or in the rest.
  pub bind_err :
      {A B : Type 0} (m : Action W E A) (k : A → Action W E B) (w : W) (e : E)
      → ((m >>= k) w).0 ≡ err e
      → ((m w).0 ≡ err e) ⊎ ((a : A) × ((m w).0 ≡ ok a) × ((k a (m w).1).0 ≡ err e))
  unfolding ◌>>=◌
  bind_err m k w e h = elim (Result-cases (m w).0) [
    | inl (a, good) ↦ inr (a, good, ground (arith, good, h))
    | inr (why, bad) ↦ inl (ground (arith, bad, h))
  ]
