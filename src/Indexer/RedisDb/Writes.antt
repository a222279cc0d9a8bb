-- ===== src/Indexer/RedisDb/Writes.antt =====
-- What a successful `add_kv` leaves in Redis.
use key_manager.Base.{
  ◌≡◌, ◌≢◌, sym, ap, ◌∙◌, subst, inl, inr, Option, some, Result, ok, arith, Result-cases, take,
}
use key_manager.Base.Text.{Str}
use key_manager.Base.Decimal.{ℤ}
use key_manager.Indexer.RedisDb.{
  Redis, FastDataKv, stored_entry, kv_key, kv_history_key, accounts_key, contracts_key, as_i64,
  add_kv, write_kv, ◌then_do◌, finished,
}

-- The documented effect of the commands, read through observers of the state. A command that
-- reports an error may have been carried out or not: nothing is assumed of it. SET replaces what
-- its key holds, so it leaves only the other keys alone.
pub record IsRedis {W E : Type 0} (redis : Redis W E) (value : W → Str → Option Str)
    (scored : W → Str → Str → ℤ → Type 0) (in_set : W → Str → Str → Type 0) : Type 0 where
  pub set_value :
      (k v : Str) (w : W) (u : Unit {0})
      → (redis.set k v w).0 ≡ ok u
      → value (redis.set k v w).1 k ≡ some v
  pub zadd_scored :
      (k m : Str) (s : ℤ) (w : W) (u : Unit {0})
      → (redis.zadd k m s w).0 ≡ ok u
      → scored (redis.zadd k m s w).1 k m s
  pub sadd_in_set :
      (k m : Str) (w : W) (u : Unit {0})
      → (redis.sadd k m w).0 ≡ ok u
      → in_set (redis.sadd k m w).1 k m
  pub zadd_value :
      (k m l : Str) (s : ℤ) (w : W) → l ≢ k → value (redis.zadd k m s w).1 l ≡ value w l
  pub sadd_value : (k m l : Str) (w : W) → l ≢ k → value (redis.sadd k m w).1 l ≡ value w l
  pub sadd_scored :
      (k m l n : Str) (s : ℤ) (w : W) → l ≢ k → scored w l n s → scored (redis.sadd k m w).1 l n s
  pub sadd_keeps : (k m l n : Str) (w : W) → in_set w l n → in_set (redis.sadd k m w).1 l n

-- The keys of the four kinds start differently.
pub kv-history : (p c k q d l : Str) → kv_key p c k ≢ kv_history_key q d l
unfolding kv_key kv_history_key
kv-history p c k q d l e = ground (arith, ap (take 1) e)

pub kv-accounts : (p c k d : Str) → kv_key p c k ≢ accounts_key d
unfolding kv_key accounts_key
kv-accounts p c k d e = ground (arith, ap (take 1) e)

pub kv-contracts : (p c k q : Str) → kv_key p c k ≢ contracts_key q
unfolding kv_key contracts_key
kv-contracts p c k q e = ground (arith, ap (take 1) e)

pub history-accounts : (p c k d : Str) → kv_history_key p c k ≢ accounts_key d
unfolding kv_history_key accounts_key
history-accounts p c k d e = ground (arith, ap (take 1) e)

pub history-contracts : (p c k q : Str) → kv_history_key p c k ≢ contracts_key q
unfolding kv_history_key contracts_key
history-contracts p c k q e = ground (arith, ap (take 1) e)

-- A chain of commands succeeds only if each of them does.
pub then_do-eq-ok :
    {W E A : Type 0} (m : W → Result (Unit {0}) E × W) (k : W → Result A E × W) (w : W) (a : A)
    → ((m then_do k) w).0 ≡ ok a
    → (u : Unit {0}) × ((m w).0 ≡ ok u) × ((m then_do k) w ≡ k (m w).1) × ((k (m w).1).0 ≡ ok a)
then_do-eq-ok m k w a h = elim (Result-cases (m w).0) [
  | inl (u, good) ↦
      let same : (m then_do k) w ≡ k (m w).1 = ground (arith, good) in
      (u, good, same, ap (λ p. p.0) (sym same) ∙ h)
  | inr (e, bad) ↦ absurd (ground (arith, bad, h))
]

module _ {W E : Type 0} (redis : Redis W E) (chain_id : Str) (value : W → Str → Option Str)
    (scored : W → Str → Str → ℤ → Type 0) (in_set : W → Str → Str → Type 0)
    (laws : IsRedis redis value scored in_set) where
  -- An entry is stored in a state: its current value, its place in the history, and in the two sets.
  abbrev pub IsStored : FastDataKv → Str → W → Type 0
  IsStored kv json w =
      (value w (kv_key kv.predecessor_id kv.current_account_id kv.key) ≡ some json)
      × scored w (kv_history_key kv.predecessor_id kv.current_account_id kv.key) json
          (as_i64 kv.block_height)
      × in_set w (accounts_key kv.current_account_id) kv.predecessor_id
      × in_set w (contracts_key kv.predecessor_id) kv.current_account_id

  write_kv-IsStored :
      (kv : FastDataKv) (json : Str) (w : W) (u : Unit {0})
      → (write_kv redis chain_id kv json w).0 ≡ ok u
      → IsStored kv json (write_kv redis chain_id kv json w).1
  unfolding write_kv
  write_kv-IsStored kv json w u h =
      let key = kv_key kv.predecessor_id kv.current_account_id kv.key in
      let history = kv_history_key kv.predecessor_id kv.current_account_id kv.key in
      let accounts = accounts_key kv.current_account_id in
      let contracts = contracts_key kv.predecessor_id in
      let (u1, set_ok, same1, h1) =
        then_do-eq-ok (redis.set key json)
          (redis.zadd history json (as_i64 kv.block_height)
            then_do redis.sadd accounts kv.predecessor_id
            then_do redis.sadd contracts kv.current_account_id
            then_do finished)
          w u h in
      let w1 = (redis.set key json w).1 in
      let (u2, zadd_ok, same2, h2) =
        then_do-eq-ok (redis.zadd history json (as_i64 kv.block_height))
          (redis.sadd accounts kv.predecessor_id
            then_do redis.sadd contracts kv.current_account_id
            then_do finished)
          w1 u h1 in
      let w2 = (redis.zadd history json (as_i64 kv.block_height) w1).1 in
      let (u3, sadd_ok, same3, h3) =
        then_do-eq-ok (redis.sadd accounts kv.predecessor_id)
          (redis.sadd contracts kv.current_account_id then_do finished) w2 u h2 in
      let w3 = (redis.sadd accounts kv.predecessor_id w2).1 in
      let (u4, last_ok, same4, h4) =
        then_do-eq-ok (redis.sadd contracts kv.current_account_id) finished w3 u h3 in
      let w4 = (redis.sadd contracts kv.current_account_id w3).1 in
      subst (λ p. IsStored kv json p.1) (sym (same1 ∙ same2 ∙ same3 ∙ same4))
        (
          laws.sadd_value contracts kv.current_account_id key w3
                (kv-contracts kv.predecessor_id kv.current_account_id kv.key kv.predecessor_id)
              ∙ laws.sadd_value accounts kv.predecessor_id key w2
                  (kv-accounts kv.predecessor_id kv.current_account_id kv.key kv.current_account_id)
              ∙ laws.zadd_value history json key (as_i64 kv.block_height) w1 (
                  kv-history kv.predecessor_id kv.current_account_id kv.key kv.predecessor_id
                    kv.current_account_id kv.key)
              ∙ laws.set_value key json w u1 set_ok,
          laws.sadd_scored contracts kv.current_account_id history json (as_i64 kv.block_height) w3
              (history-contracts kv.predecessor_id kv.current_account_id kv.key kv.predecessor_id)
              (laws.sadd_scored accounts kv.predecessor_id history json (as_i64 kv.block_height) w2
                (history-accounts kv.predecessor_id kv.current_account_id kv.key
                  kv.current_account_id)
                (laws.zadd_scored history json (as_i64 kv.block_height) w1 u2 zadd_ok)),
          laws.sadd_keeps contracts kv.current_account_id accounts kv.predecessor_id w3
              (laws.sadd_in_set accounts kv.predecessor_id w2 u3 sadd_ok),
          laws.sadd_in_set contracts kv.current_account_id w3 u4 last_ok,
        )

  -- In a Redis whose commands have their documented effect, a write that reports success leaves the entry's JSON as the current value under its key, in its
  -- history with the block height as the score, the writer among the accounts of the contract and
  -- the contract among those of the writer.
  pub add_kv-IsStored :
      (kv : FastDataKv) (w : W) (u : Unit {0})
      → (add_kv redis chain_id kv w).0 ≡ ok u
      → (json : Str) × (redis.stored_to_string (stored_entry redis chain_id kv) ≡ ok json)
        × IsStored kv json (add_kv redis chain_id kv w).1
  add_kv-IsStored kv w u h = elim (Result-cases (redis.connect w).0) [
    | inr (e, bad) ↦ absurd (unfold add_kv in ground (arith, bad, h))
    | inl (v, good) ↦
        elim (Result-cases (redis.stored_to_string (stored_entry redis chain_id kv))) [
          | inr (e, bad) ↦ absurd (unfold add_kv in ground (arith, good, bad, h))
          | inl (json, text) ↦
              let same : add_kv redis chain_id kv w
                  ≡ write_kv redis chain_id kv json (redis.connect w).1 =
                unfold add_kv in ground (arith, good, text) in
              (
                json,
                text,
                subst (λ p. IsStored kv json p.1) (sym same)
                    (write_kv-IsStored kv json (redis.connect w).1 u
                      (ap (λ p. p.0) (sym same) ∙ h)),
              )
        ]
  ]
