-- ===== src/Server/Startup/Connects.antt =====
-- The task that connects to Redis in main.rs, over a sequence of attempts.
use key_manager.Base.{
  ℕ, ◌≤◌, ◌≡◌, ◌⊎◌, inl, inr, Bool, true, false, List, [], ◌∷◌, arith, All, any, Bool-cases,
}
use key_manager.Server.Startup.{
  Reconnect, Attempt, connected, unhealthy, failed, attempt_once, reconnect, run, start,
}

abbrev pub is_connected : Attempt → Bool
is_connected connected = true
is_connected unhealthy = false
is_connected failed = false

-- The delay between attempts is from 5 to 300 seconds.
abbrev pub IsDelay : ℕ → Type 0
IsDelay n = (5 ≤ n) × (n ≤ 300)

-- A wait is the first, or such a delay.
abbrev pub IsWait : ℕ → Type 0
IsWait n = (n ≡ 0) ⊎ IsDelay n

reconnect-IsDelay :
    (attempt : Attempt) (task : Reconnect)
    → IsDelay task.delay_secs
    → IsDelay (reconnect attempt task).1.delay_secs
unfolding reconnect
reconnect-IsDelay attempt task h = elim (Bool-cases task.has_db) [
  | inl on ↦ ground (arith, on)
  | inr off ↦ elim attempt [
    | connected ↦ unfold attempt_once in ground (arith, off)
    | unhealthy ↦ unfold attempt_once in ground (arith, off, h)
    | failed ↦ unfold attempt_once in ground (arith, off, h)
  ]
]

reconnect-IsWait :
    (attempt : Attempt) (task : Reconnect)
    → IsDelay task.delay_secs
    → IsWait (reconnect attempt task).0
unfolding reconnect
reconnect-IsWait attempt task h = elim (Bool-cases task.is_initial) [
  | inl first ↦ inl (ground (arith, first))
  | inr later ↦ inr (ground (arith, later, h))
]

run-IsWait :
    (attempts : List Attempt) (task : Reconnect)
    → IsDelay task.delay_secs
    → All IsWait (run attempts task).0
unfolding run
run-IsWait [] task h = tt
run-IsWait (attempt ∷ attempts) task h = (
  reconnect-IsWait attempt task h,
  run-IsWait attempts (reconnect attempt task).1 (reconnect-IsDelay attempt task h),
)

-- A connection stays.
reconnect_keeps :
    (attempt : Attempt) (task : Reconnect)
    → task.has_db ≡ true
    → (reconnect attempt task).1.has_db ≡ true
unfolding reconnect
reconnect_keeps attempt task on = ground (arith, on)

reconnect_connected : (task : Reconnect) → (reconnect connected task).1.has_db ≡ true
unfolding reconnect attempt_once
reconnect_connected task = elim (Bool-cases task.has_db) [
  | inl on ↦ ground (arith, on)
  | inr off ↦ ground (arith, off)
]

run_keeps :
    (attempts : List Attempt) (task : Reconnect)
    → task.has_db ≡ true
    → (run attempts task).1.has_db ≡ true
unfolding run
run_keeps [] task on = on
run_keeps (attempt ∷ attempts) task on =
    run_keeps attempts (reconnect attempt task).1 (reconnect_keeps attempt task on)

run-any :
    (attempts : List Attempt) (task : Reconnect)
    → any is_connected attempts ≡ true
    → (run attempts task).1.has_db ≡ true
unfolding run
run-any [] task h = absurd (ground (arith, h))
run-any (connected ∷ attempts) task h =
    run_keeps attempts (reconnect connected task).1 (reconnect_connected task)
run-any (unhealthy ∷ attempts) task h = run-any attempts (reconnect unhealthy task).1 h
run-any (failed ∷ attempts) task h = run-any attempts (reconnect failed task).1 h

-- The server gets its database: if one of the attempts finds Redis connected and healthy, the server
-- has a database when they are over, however the later ones would go, and each wait before a round is
-- none or from 5 to 300 seconds.
pub run_connects :
    (attempts : List Attempt)
    → any is_connected attempts ≡ true
    → ((run attempts start).1.has_db ≡ true) × All IsWait (run attempts start).0
run_connects attempts h =
    (run-any attempts start h, run-IsWait attempts start (omega arith, omega arith))
