-- ===== src/Indexer/Retry/Laws.antt =====
-- The attempts that `retry_with_delays` makes.
use key_manager.Base.{
  ℕ, suc, ◌+◌, ◌<◌, ◌≡◌, refl, ◌⊎◌, inl, inr, Option, none, some, List, [], ◌∷◌, ◌++◌, Result, ok,
  err, length, arith, Result-cases, if◌then◌else◌, ltb,
}
use key_manager.Indexer.Retry.{returned, Retried, attempts, retry_with_delays}

module _ {ℓ κ} {S T : Type ℓ} {E : Type κ} (op : S → Result T E × S) where
  -- `n` attempts in a row fail and lead from one state to another.
  pub data Fail : ℕ → S → S → Type (ℓ ⊔ κ) where
    start : (s : S) → Fail 0 s s
    fail : {n : ℕ} (s s' : S) (e : E) → (op s).0 ≡ err e → Fail n (op s).1 s' → Fail (suc n) s s'

  -- `k` attempts failed, the next one succeeded and its value is the result.
  abbrev pub Succeeds : ℕ → S → Retried S T E → Type (ℓ ⊔ κ)
  Succeeds k s r =
      (s' : S) × (v : T) × Fail k s s'
      × ((op s').0 ≡ ok v)
      × (r.state ≡ (op s').1)
      × (r.result ≡ returned (ok v))

  -- All attempts failed, `k` and one more, and the error of the last is the result.
  abbrev pub Fails : ℕ → S → Retried S T E → Type (ℓ ⊔ κ)
  Fails k s r =
      (s' : S) × (e : E) × Fail k s s'
      × ((op s').0 ≡ err e)
      × (r.state ≡ (op s').1)
      × (r.result ≡ returned (err e))

  module _ (no_attempts : E) where
    one_more :
        (n : ℕ) (s : S) (e : E) (r : Retried S T E)
        → (op s).0 ≡ err e
        → ((k : ℕ) × (k < n) × Succeeds k (op s).1 r) ⊎ ((k : ℕ) × (n ≡ suc k) × Fails k (op s).1 r)
        → ((k : ℕ) × (k < suc n) × Succeeds k s r) ⊎ ((k : ℕ) × (suc n ≡ suc k) × Fails k s r)
    one_more n s e r h (inl (k, b, (s', v, f, x, y, z))) =
        inl (suc k, omega arith, (s', v, fail s s' e h f, x, y, z))
    one_more n s e r h (inr (k, b, (s', e', f, x, y, z))) =
        inr (suc k, omega arith, (s', e', fail s s' e h f, x, y, z))

    attempts_err :
        (delay : ℕ) (delays : List ℕ) (attempt : ℕ) (last_error : Option E) (s : S) (slept : List ℕ)
        (e : E)
        → (op s).0 ≡ err e
        → (w : List ℕ) × (attempts no_attempts op (delay ∷ delays) attempt last_error s slept
            ≡ attempts no_attempts op delays (attempt + 1) (some e) (op s).1 w)
    unfolding attempts
    attempts_err delay delays attempt last_error s slept e h =
        ((if ltb 0 attempt then slept ++ delay ∷ [] else slept), ground (arith, h))

    attempts_ok :
        (delay : ℕ) (delays : List ℕ) (attempt : ℕ) (last_error : Option E) (s : S) (slept : List ℕ)
        (v : T)
        → (op s).0 ≡ ok v
        → Succeeds 0 s (attempts no_attempts op (delay ∷ delays) attempt last_error s slept)
    unfolding attempts
    attempts_ok delay delays attempt last_error s slept v h =
        (s, v, start s, h, ground (arith, h), ground (arith, h))

    attempts_lem :
        (delay : ℕ) (delays : List ℕ) (attempt : ℕ) (last_error : Option E) (s : S) (slept : List ℕ)
        → ((k : ℕ) × (k < suc (length delays))
            × Succeeds k s (attempts no_attempts op (delay ∷ delays) attempt last_error s slept))
          ⊎ ((k : ℕ) × (suc (length delays) ≡ suc k)
              × Fails k s (attempts no_attempts op (delay ∷ delays) attempt last_error s slept))
    attempts_lem delay [] attempt last_error s slept = elim (Result-cases (op s).0) [
      | inl (v, h) ↦ inl (0, omega arith, attempts_ok delay [] attempt last_error s slept v h)
      | inr (e, h) ↦ inr (
        0,
        refl,
        (
          s,
          e,
          start s,
          h,
          unfold attempts in ground (arith, h),
          unfold attempts in ground (arith, h),
        ),
      )
    ]
    attempts_lem delay (d ∷ ds) attempt last_error s slept = elim (Result-cases (op s).0) [
      | inl (v, h) ↦ inl (0, omega arith, attempts_ok delay (d ∷ ds) attempt last_error s slept v h)
      | inr (e, h) ↦
          let (w, step) = attempts_err delay (d ∷ ds) attempt last_error s slept e h in
          rw step (
            one_more (suc (length ds)) s e
              (attempts no_attempts op (d ∷ ds) (attempt + 1) (some e) (op s).1 w) h
              (attempts_lem d ds (attempt + 1) (some e) (op s).1 w))
    ]

    -- A call with at least one delay makes at most one attempt per delay, the first succeeding one
    -- the last: it returns that attempt's value, or, if all fail, the error of the last, and the
    -- world is as that attempt left it. It never panics. With no delay it returns an error and
    -- makes no attempt.
    pub retry_with_delays_lem :
        (delays : List ℕ) (s : S)
        → ((delays ≡ [])
            × ((retry_with_delays no_attempts op delays s).state ≡ s)
            × ((retry_with_delays no_attempts op delays s).result ≡ returned (err no_attempts)))
          ⊎ (((k : ℕ) × (k < length delays)
                × Succeeds k s (retry_with_delays no_attempts op delays s))
              ⊎ ((k : ℕ) × (length delays ≡ suc k)
                  × Fails k s (retry_with_delays no_attempts op delays s)))
    unfolding retry_with_delays
    retry_with_delays_lem [] s = inl (refl, refl, refl)
    retry_with_delays_lem (d ∷ ds) s = inr (attempts_lem d ds 0 none s [])
