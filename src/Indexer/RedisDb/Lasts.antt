-- ===== src/Indexer/RedisDb/Lasts.antt =====
-- What the writes of fastdata-indexer/redis_db/src/lib.rs leave of earlier entries: histories and
-- sets only grow, while the current value of a key is replaced.
use key_manager.Base.{
  ℕ, ◌≡◌, ◌≢◌, sym, ap, ◌∙◌, subst, inl, inr, Option, List, [], ◌∷◌, Result, ok, All, arith,
  Result-cases, take,
}
use key_manager.Base.Text.{Str}
use key_manager.Base.Decimal.{ℤ, show}
use key_manager.Indexer.RedisDb.{
  Redis, FastDataKv, StoredKvEntry, stored_entry, kv_key, kv_history_key, accounts_key,
  contracts_key, checkpoint_key, as_i64, add_kv, add_kv_batch, write_kv,
  set_last_processed_block_height, ◌then_do◌, finished,
}
use key_manager.Indexer.RedisDb.Writes.{
  IsRedis, kv-history, kv-accounts, kv-contracts, history-accounts, history-contracts,
  add_kv-IsStored,
}

-- The documented effect of the commands on what they do not write, also when they report an error: connecting changes nothing, SET touches
-- its own key only, ZADD gives a score to its own member only, and SADD removes nothing. And
-- entries that are written as the same JSON are the same.
pub record IsLasting {W E : Type 0} (redis : Redis W E) (scored : W → Str → Str → ℤ → Type 0)
    (in_set : W → Str → Str → Type 0) : Type 0 where
  pub connect_scored :
      (l n : Str) (t : ℤ) (w : W) → scored w l n t → scored (redis.connect w).1 l n t
  pub connect_in_set : (l n : Str) (w : W) → in_set w l n → in_set (redis.connect w).1 l n
  pub set_scored :
      (k v l n : Str) (t : ℤ) (w : W) → l ≢ k → scored w l n t → scored (redis.set k v w).1 l n t
  pub set_in_set : (k v l n : Str) (w : W) → l ≢ k → in_set w l n → in_set (redis.set k v w).1 l n
  pub zadd_scores :
      (k m l n : Str) (s t : ℤ) (w : W)
      → (n ≡ m → t ≡ s)
      → scored w l n t
      → scored (redis.zadd k m s w).1 l n t
  pub zadd_in_set :
      (k m l n : Str) (s : ℤ) (w : W) → l ≢ k → in_set w l n → in_set (redis.zadd k m s w).1 l n
  pub stored_injective :
      (d e : StoredKvEntry) (json : Str)
      → redis.stored_to_string d ≡ ok json
      → redis.stored_to_string e ≡ ok json
      → d ≡ e

-- What outlives each of two commands outlives both.
pub outlives :
    {W E : Type 0} (P : W → Type 0) (m k : W → Result (Unit {0}) E × W) (w : W)
    → ((w : W) → P w → P (m w).1)
    → ((w : W) → P w → P (k w).1)
    → P w
    → P ((m then_do k) w).1
outlives P m k w f g h = elim (Result-cases (m w).0) [
  | inl (u, good) ↦
      let same : (m then_do k) w ≡ k (m w).1 = ground (arith, good) in
      subst (λ p. P p.1) (sym same) (g (m w).1 (f w h))
  | inr (e, bad) ↦
      let same : (m w).1 ≡ ((m then_do k) w).1 = ground (arith, bad) in subst P same (f w h)
]

history-checkpoint : (p c k chain s : Str) → kv_history_key p c k ≢ checkpoint_key chain s
unfolding kv_history_key checkpoint_key
history-checkpoint p c k chain s e = ground (arith, ap (take 1) e)

accounts-checkpoint : (c chain s : Str) → accounts_key c ≢ checkpoint_key chain s
unfolding accounts_key checkpoint_key
accounts-checkpoint c chain s e = ground (arith, ap (take 1) e)

contracts-checkpoint : (p chain s : Str) → contracts_key p ≢ checkpoint_key chain s
unfolding contracts_key checkpoint_key
contracts-checkpoint p chain s e = ground (arith, ap (take 2) e)

module _ {W E : Type 0} (redis : Redis W E) (chain_id : Str) (value : W → Str → Option Str)
    (scored : W → Str → Str → ℤ → Type 0) (in_set : W → Str → Str → Type 0)
    (laws : IsRedis redis value scored in_set) (lasting : IsLasting redis scored in_set) where
  -- The entry's JSON is in the history of its key with the block height as the score, its writer
  -- among the accounts of the contract, and the contract among those of the writer.
  abbrev pub IsRecorded : FastDataKv → W → Type 0
  IsRecorded kv w =
      (json : Str) × (redis.stored_to_string (stored_entry redis chain_id kv) ≡ ok json)
      × scored w (kv_history_key kv.predecessor_id kv.current_account_id kv.key) json
          (as_i64 kv.block_height)
      × in_set w (accounts_key kv.current_account_id) kv.predecessor_id
      × in_set w (contracts_key kv.predecessor_id) kv.current_account_id

  add_kv-IsRecorded :
      (kv : FastDataKv) (w : W) (u : Unit {0})
      → (add_kv redis chain_id kv w).0 ≡ ok u
      → IsRecorded kv (add_kv redis chain_id kv w).1
  add_kv-IsRecorded kv w u h =
      let (json, text, (value_there, scored_there, account, contract)) =
        add_kv-IsStored redis chain_id value scored in_set laws kv w u h in
      (json, text, scored_there, account, contract)

  connect_keeps : (kv : FastDataKv) (w : W) → IsRecorded kv w → IsRecorded kv (redis.connect w).1
  connect_keeps kv w (json, text, s, a, c) = (
    json,
    text,
    lasting.connect_scored _ json (as_i64 kv.block_height) w s,
    lasting.connect_in_set _ kv.predecessor_id w a,
    lasting.connect_in_set _ kv.current_account_id w c,
  )

  set_kv_keeps :
      (kv : FastDataKv) (p c k v : Str) (w : W)
      → IsRecorded kv w
      → IsRecorded kv (redis.set (kv_key p c k) v w).1
  set_kv_keeps kv p c k v w (json, text, s, a, t) = (
    json,
    text,
    lasting.set_scored (kv_key p c k) v _ json (as_i64 kv.block_height) w
        (λ e. kv-history p c k kv.predecessor_id kv.current_account_id kv.key (sym e)) s,
    lasting.set_in_set (kv_key p c k) v _ kv.predecessor_id w
        (λ e. kv-accounts p c k kv.current_account_id (sym e)) a,
    lasting.set_in_set (kv_key p c k) v _ kv.current_account_id w
        (λ e. kv-contracts p c k kv.predecessor_id (sym e)) t,
  )

  zadd_keeps :
      (kv other : FastDataKv) (json : Str) (w : W)
      → redis.stored_to_string (stored_entry redis chain_id other) ≡ ok json
      → IsRecorded kv w
      → IsRecorded kv
          (redis.zadd
            (kv_history_key other.predecessor_id other.current_account_id other.key)
            json
            (as_i64 other.block_height)
            w).1
  zadd_keeps kv other json w written (own, text, s, a, t) =
      let key = kv_history_key other.predecessor_id other.current_account_id other.key in
      (
        own,
        text,
        lasting.zadd_scores key json _ own (as_i64 other.block_height) (as_i64 kv.block_height) w
            (λ same.
              ap (λ e. as_i64 e.block_height)
                (lasting.stored_injective (stored_entry redis chain_id kv)
                  (stored_entry redis chain_id other) json (text ∙ ap ok same) written))
            s,
        lasting.zadd_in_set key json _ kv.predecessor_id (as_i64 other.block_height) w
            (λ e.
              history-accounts other.predecessor_id other.current_account_id other.key
                kv.current_account_id (sym e))
            a,
        lasting.zadd_in_set key json _ kv.current_account_id (as_i64 other.block_height) w
            (λ e.
              history-contracts other.predecessor_id other.current_account_id other.key
                kv.predecessor_id (sym e))
            t,
      )

  sadd_accounts_keeps :
      (kv : FastDataKv) (c m : Str) (w : W)
      → IsRecorded kv w
      → IsRecorded kv (redis.sadd (accounts_key c) m w).1
  sadd_accounts_keeps kv c m w (json, text, s, a, t) = (
    json,
    text,
    laws.sadd_scored (accounts_key c) m _ json (as_i64 kv.block_height) w
        (history-accounts kv.predecessor_id kv.current_account_id kv.key c) s,
    laws.sadd_keeps (accounts_key c) m _ kv.predecessor_id w a,
    laws.sadd_keeps (accounts_key c) m _ kv.current_account_id w t,
  )

  sadd_contracts_keeps :
      (kv : FastDataKv) (p m : Str) (w : W)
      → IsRecorded kv w
      → IsRecorded kv (redis.sadd (contracts_key p) m w).1
  sadd_contracts_keeps kv p m w (json, text, s, a, t) = (
    json,
    text,
    laws.sadd_scored (contracts_key p) m _ json (as_i64 kv.block_height) w
        (history-contracts kv.predecessor_id kv.current_account_id kv.key p) s,
    laws.sadd_keeps (contracts_key p) m _ kv.predecessor_id w a,
    laws.sadd_keeps (contracts_key p) m _ kv.current_account_id w t,
  )

  write_kv_keeps :
      (kv other : FastDataKv) (json : Str) (w : W)
      → redis.stored_to_string (stored_entry redis chain_id other) ≡ ok json
      → IsRecorded kv w
      → IsRecorded kv (write_kv redis chain_id other json w).1
  unfolding write_kv
  write_kv_keeps kv other json w written h =
      let accounts = redis.sadd (accounts_key other.current_account_id) other.predecessor_id in
      let contracts = redis.sadd (contracts_key other.predecessor_id) other.current_account_id in
      let history =
        redis.zadd (kv_history_key other.predecessor_id other.current_account_id other.key) json
          (as_i64 other.block_height) in
      outlives (IsRecorded kv)
        (redis.set (kv_key other.predecessor_id other.current_account_id other.key) json)
        (history then_do accounts then_do contracts then_do finished) w
        (set_kv_keeps kv other.predecessor_id other.current_account_id other.key json)
        (λ w1.
          outlives (IsRecorded kv) history (accounts then_do contracts then_do finished) w1
            (λ w2. zadd_keeps kv other json w2 written)
            (λ w2.
              outlives (IsRecorded kv) accounts (contracts then_do finished) w2
                (sadd_accounts_keeps kv other.current_account_id other.predecessor_id)
                (λ w3.
                  outlives (IsRecorded kv) contracts finished w3
                    (sadd_contracts_keeps kv other.predecessor_id other.current_account_id)
                    (λ w4 k. k))))
        h

  add_kv_keeps :
      (kv other : FastDataKv) (w : W)
      → IsRecorded kv w
      → IsRecorded kv (add_kv redis chain_id other w).1
  add_kv_keeps kv other w h =
      let connected = connect_keeps kv w h in
      elim (Result-cases (redis.connect w).0) [
        | inr (e, bad) ↦
            let same : (redis.connect w).1 ≡ (add_kv redis chain_id other w).1 =
              unfold add_kv in ground (arith, bad) in
            subst (IsRecorded kv) same connected
        | inl (u, good) ↦
            elim (Result-cases (redis.stored_to_string (stored_entry redis chain_id other))) [
              | inr (e, bad) ↦
                  let same : (redis.connect w).1 ≡ (add_kv redis chain_id other w).1 =
                    unfold add_kv in ground (arith, good, bad) in
                  subst (IsRecorded kv) same connected
              | inl (json, text) ↦
                  let same : (write_kv redis chain_id other json (redis.connect w).1).1
                      ≡ (add_kv redis chain_id other w).1 =
                    unfold add_kv in ground (arith, good, text) in
                  subst (IsRecorded kv) same
                    (write_kv_keeps kv other json (redis.connect w).1 text connected)
            ]
      ]

  -- An entry that is recorded stays so through any batch, also one that fails.
  pub add_kv_batch_keeps :
      (kv : FastDataKv) (kvs : List FastDataKv) (w : W)
      → IsRecorded kv w
      → IsRecorded kv (add_kv_batch redis chain_id kvs w).1
  add_kv_batch_keeps kv [] w h = unfold add_kv_batch in h
  add_kv_batch_keeps kv (other ∷ kvs) w h =
      let after = add_kv_keeps kv other w h in
      elim (Result-cases (add_kv redis chain_id other w).0) [
        | inr (e, bad) ↦
            let same : (add_kv redis chain_id other w).1
                ≡ (add_kv_batch redis chain_id (other ∷ kvs) w).1 =
              unfold add_kv_batch in ground (arith, bad) in
            subst (IsRecorded kv) same after
        | inl (u, good) ↦
            let same : (add_kv_batch redis chain_id kvs (add_kv redis chain_id other w).1).1
                ≡ (add_kv_batch redis chain_id (other ∷ kvs) w).1 =
              unfold add_kv_batch in ground (arith, good) in
            subst (IsRecorded kv) same (add_kv_batch_keeps kv kvs _ after)
      ]

  -- A batch that reports success has recorded all its entries.
  pub add_kv_batch-IsRecorded :
      (kvs : List FastDataKv) (w : W) (u : Unit {0})
      → (add_kv_batch redis chain_id kvs w).0 ≡ ok u
      → All (λ kv. IsRecorded kv (add_kv_batch redis chain_id kvs w).1) kvs
  add_kv_batch-IsRecorded [] w u h = tt
  add_kv_batch-IsRecorded (kv ∷ kvs) w u h = elim (Result-cases (add_kv redis chain_id kv w).0) [
    | inr (e, bad) ↦ absurd (unfold add_kv_batch in ground (arith, bad, h))
    | inl (v, good) ↦
        let same : add_kv_batch redis chain_id kvs (add_kv redis chain_id kv w).1
            ≡ add_kv_batch redis chain_id (kv ∷ kvs) w =
          unfold add_kv_batch in ground (arith, good) in
        subst (λ p. All (λ k. IsRecorded k p.1) (kv ∷ kvs)) same
          (
            add_kv_batch_keeps kv kvs _ (add_kv-IsRecorded kv w v good),
            add_kv_batch-IsRecorded kvs _ u (ap (λ p. p.0) same ∙ h),
          )
  ]

  set_checkpoint_keeps :
      (kv : FastDataKv) (suffix v : Str) (w : W)
      → IsRecorded kv w
      → IsRecorded kv (redis.set (checkpoint_key chain_id suffix) v w).1
  set_checkpoint_keeps kv suffix v w (json, text, s, a, t) =
      let key = checkpoint_key chain_id suffix in
      (
        json,
        text,
        lasting.set_scored key v _ json (as_i64 kv.block_height) w
            (history-checkpoint kv.predecessor_id kv.current_account_id kv.key chain_id suffix) s,
        lasting.set_in_set key v _ kv.predecessor_id w
            (accounts-checkpoint kv.current_account_id chain_id suffix) a,
        lasting.set_in_set key v _ kv.current_account_id w
            (contracts-checkpoint kv.predecessor_id chain_id suffix) t,
      )

  pub checkpoint_keeps :
      (kv : FastDataKv) (suffix : Str) (height : ℕ) (w : W)
      → IsRecorded kv w
      → IsRecorded kv (set_last_processed_block_height redis chain_id suffix height w).1
  unfolding set_last_processed_block_height
  checkpoint_keeps kv suffix height w h =
      let store = redis.set (checkpoint_key chain_id suffix) (show height) in
      outlives (IsRecorded kv) redis.connect (store then_do finished) w (connect_keeps kv)
        (λ w1.
          outlives (IsRecorded kv) store finished w1 (set_checkpoint_keeps kv suffix (show height))
            (λ w2 k. k))
        h
