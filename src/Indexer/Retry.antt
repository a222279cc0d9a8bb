-- ===== src/Indexer/Retry.antt =====
-- `retry_with_delays` of fastdata-indexer/scylladb/src/utils.rs. An operation takes the state of the world and returns its
-- result and the next state; the sleeps are the list of their lengths in seconds.
pub mod Laws
use key_manager.Base.{
  ℕ, zero, suc, ◌+◌, Option, none, some, List, [], ◌∷◌, ◌++◌, Result, ok, err, ltb, if◌then◌else◌,
}

-- A call returns, or panics at the `unwrap` of an error that is not there.
pub data Returned {ℓ κ} (T : Type ℓ) (E : Type κ) : Type (ℓ ⊔ κ) where
  returned : Result T E → Returned T E
  panicked : Returned T E

pub record Retried {ℓ κ} (S T : Type ℓ) (E : Type κ) : Type (ℓ ⊔ κ) where
  pub result : Returned T E
  pub state : S
  pub slept : List ℕ

module _ {ℓ κ} {S T : Type ℓ} {E : Type κ} (no_attempts : E) (op : S → Result T E × S) where
  -- The loop over the delays from attempt `attempt` on.
  unfoldable pub attempts : List ℕ → ℕ → Option E → S → List ℕ → Retried S T E
  attempts [] attempt none s slept = record { result = panicked; state = s; slept = slept }
  attempts [] attempt (some e) s slept = record {
    result = returned (err e);
    state = s;
    slept = slept;
  }
  attempts (delay ∷ delays) attempt last_error s slept =
      let slept' = if ltb 0 attempt then slept ++ delay ∷ [] else slept in
      elim (op s).0 [
        | ok v ↦ record { result = returned (ok v); state = (op s).1; slept = slept' }
        | err e ↦ attempts delays (attempt + 1) (some e) (op s).1 slept'
      ]

  unfoldable pub retry_with_delays : List ℕ → S → Retried S T E
  unfolding attempts
  retry_with_delays [] s = record { result = returned (err no_attempts); state = s; slept = [] }
  retry_with_delays (delay ∷ delays) s = attempts (delay ∷ delays) 0 none s []
