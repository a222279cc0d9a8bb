-- ===== src/Server/Handlers/Watch/Slots.antt =====
-- The slots of the watches of one worker of the server, as main.rs creates a counter for each worker, when requests run at the same time: each atomic operation on the counter is
-- a step, and the steps of different requests come in any order.
use key_manager.Base.{
  subst, ℕ, suc, ◌+◌, ◌-◌, ◌^◌, ◌≤◌, ◌<◌, ◌≡◌, refl, ok, err, arith, ◌==◌, leb, if◌then◌else◌, ◌⊎◌,
  inl, inr, Bool-cases,
}
use key_manager.Server.Handlers.{Services, AppState}
use key_manager.Server.Handlers.Watch.{max_concurrent_watches, claim_watch, too_many_watches}

-- The counter of a worker, the guards that are alive, and the requests that still have to give their slot back.
pub data Watches : Type 0 where
  watches : (count active rolling : ℕ) → Watches

-- `fetch_add(1)` and `fetch_sub(1)` of a usize wrap around.
abbrev pub increment : ℕ → ℕ
increment count = if count == 2 ^ 64 - 1 then 0 else count + 1

abbrev pub decrement : ℕ → ℕ
decrement count = if count == 0 then 2 ^ 64 - 1 else count - 1

-- A request to the worker takes a slot and gets a guard, or takes one too many; gives back the one too many; a
-- guard is dropped.
pub data Step : Watches → Watches → Type 0 where
  admit :
      (c a r : ℕ)
      → c < max_concurrent_watches
      → Step (watches c a r) (watches (increment c) (suc a) r)
  exceed :
      (c a r : ℕ)
      → max_concurrent_watches ≤ c
      → Step (watches c a r) (watches (increment c) a (suc r))
  roll_back : (c a r : ℕ) → Step (watches c a (suc r)) (watches (decrement c) a r)
  drop_guard : (c a r : ℕ) → Step (watches c (suc a) r) (watches (decrement c) a r)

-- A number of steps.
pub data Steps (first : Watches) : ℕ → Watches → Type 0 where
  none_yet : Steps first 0 first
  then_step : (n : ℕ) (s t : Watches) → Steps first n s → Step s t → Steps first (suc n) t

abbrev pub none_active : Watches
none_active = watches 0 0 0

-- The counter counts the guards and the slots to give back; at most 100 guards are alive.
abbrev pub Counted : Watches → Type 0
Counted (watches c a r) = (c ≡ a + r) × (a ≤ max_concurrent_watches)

-- No more of them than steps.
abbrev UpTo : ℕ → Watches → Type 0
UpTo n (watches c a r) = a + r ≤ n

Step-Counted :
    (n : ℕ) (s t : Watches)
    → Step s t
    → n < 2 ^ 64 - 1
    → UpTo n s × Counted s
    → UpTo (suc n) t × Counted t
Step-Counted n _ _ (admit c a r free) few (up, (same, most)) =
    (omega (arith, up), (ground (arith, few, up, same), omega (arith, free, same)))
Step-Counted n _ _ (exceed c a r full) few (up, (same, most)) =
    (omega (arith, up), (ground (arith, few, up, same), most))
Step-Counted n _ _ (roll_back c a r) few (up, (same, most)) =
    (omega (arith, up), (ground (arith, same), most))
Step-Counted n _ _ (drop_guard c a r) few (up, (same, most)) =
    (omega (arith, up), (ground (arith, same), omega (arith, most)))

Steps-UpTo : (n : ℕ) (s : Watches) → Steps none_active n s → n < 2 ^ 64 → UpTo n s × Counted s
Steps-UpTo _ _ none_yet few = (omega arith, (refl, omega arith))
Steps-UpTo _ _ (then_step n s t before last) few =
    Step-Counted n s t last (omega (arith, few)) (Steps-UpTo n s before (omega (arith, few)))

-- However the atomic operations on the counter of one worker interleave, at most 100 guards of that worker are alive at any time (each worker has a counter of its own), and the counter
-- is the number of guards and of slots to give back, so it never falls below zero. The run has fewer than 2^64 steps.
pub Steps-Counted : (n : ℕ) (s : Watches) → Steps none_active n s → n < 2 ^ 64 → Counted s
Steps-Counted n s run few = (Steps-UpTo n s run few).1

module _ {W E : Type 0} (services : Services W E) where
  -- A claim that nothing interrupts is one step that admits, or one that exceeds and one that rolls back.
  pub claim_watch-Step :
      (state : AppState W) (a r : ℕ)
      → state.watch_count < 2 ^ 64 - 1
      → let claimed = claim_watch services state in
        let before = watches state.watch_count in
        ((claimed.0 ≡ ok tt) × Step (before a r) (watches claimed.1.watch_count (suc a) r))
        ⊎ ((claimed.0 ≡ err too_many_watches)
            × ((mid : Watches) × Step (before a r) mid
                × Step mid (watches claimed.1.watch_count a r)))
  unfolding claim_watch
  claim_watch-Step state a r few =
      let c = state.watch_count in
      elim (Bool-cases (leb max_concurrent_watches c)) [
        | inr free ↦
            let count : increment c ≡ (claim_watch services state).1.watch_count =
              ground (arith, free, few) in
            inl (
              ground (arith, free),
              subst (λ k. Step (watches c a r) (watches k (suc a) r)) count
                  (admit c a r (ground (arith, free))),
            )
        | inl full ↦
            let count : decrement (increment c) ≡ (claim_watch services state).1.watch_count =
              ground (arith, full, few) in
            inr (
              ground (arith, full),
              (
                watches (increment c) a (suc r),
                exceed c a r (ground (arith, full)),
                subst (λ k. Step (watches (increment c) a (suc r)) (watches k a r)) count
                    (roll_back (increment c) a r),
              ),
            )
      ]
