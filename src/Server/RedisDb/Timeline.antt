-- ===== src/Server/RedisDb/Timeline.antt =====
-- The timeline of an account: `get_kv_timeline` reads a history that no write of the indexer adds to.
use key_manager.Base.{
  ℕ, ◌≡◌, ◌≢◌, refl, sym, ap, subst, inl, inr, false, none, List, [], ◌∷◌, ◌++◌, Result, ok, arith,
  Result-cases, unwrap_or, is_empty, All, drop, take, zero, suc,
}
use key_manager.Base.Text.{Str}
use key_manager.Base.Text.Laws.{Lacks}
use key_manager.Base.Decimal.{ℤ, pos, i64_max}
use key_manager.Indexer.RedisDb.{
  Redis, FastDataKv, stored_entry, add_kv, add_kv_batch, write_kv, as_i64, kv_history_key, kv_key,
  accounts_key, contracts_key, ◌then_do◌, finished,
}
use key_manager.Indexer.RedisDb.Keys.{cut}
use key_manager.Server.Action.{◌>>=◌}
use key_manager.Server.Models.Params.{TimelineParams}
use key_manager.Server.RedisDb.Reads.{Among}
use key_manager.Server.RedisDb.{
  Queries, history_key, get_kv_timeline, read_history, zrange, pairs_from_value,
}

-- What the commands do not do: connecting, SET and SADD add to no sorted set, ZADD only to the one
-- it names, and a range lists what is in the sorted set only.
pub record IsConfined {W E : Type 0} (redis : Redis W E) (queries : Queries W E)
    (scored : W → Str → Str → ℤ → Type 0) : Type 0 where
  pub connect_adds : (l n : Str) (s : ℤ) (w : W) → scored (redis.connect w).1 l n s → scored w l n s
  pub set_adds : (k v l n : Str) (s : ℤ) (w : W) → scored (redis.set k v w).1 l n s → scored w l n s
  pub sadd_adds :
      (k m l n : Str) (s : ℤ) (w : W) → scored (redis.sadd k m w).1 l n s → scored w l n s
  pub zadd_adds :
      (k m l n : Str) (t s : ℤ) (w : W)
      → l ≢ k
      → scored (redis.zadd k m t w).1 l n s
      → scored w l n s
  pub zrange_only :
      (k m t : Str) (a b : ℤ) (w : W) (reply : List (Str × Str))
      → (queries.zrangebyscore_withscores k a b w).0 ≡ ok reply
      → Among (m, t) reply
      → (s : ℤ) × scored w k m s

-- The key of the timeline is that of no entry with a key.
history_key-ne-kv_history_key :
    (p c q d k : Str)
    → Lacks b':' p
    → Lacks b':' q
    → Lacks b':' c
    → Lacks b':' d
    → is_empty k ≡ false
    → history_key p c [] ≢ kv_history_key q d k
unfolding history_key kv_history_key
history_key-ne-kv_history_key p c q d k hp hq hc hd full e =
    let (same_p, rest) = cut p q (c ++ b':' ∷ []) (d ++ b':' ∷ k) hp hq (ap (drop 8) e) in
    let (same_c, none_left) = cut c d [] k hc hd rest in ground (arith, full, sym none_left)

-- An entry as the indexer has them: a key, and accounts without a colon.
abbrev pub IsKeyed : FastDataKv → Type 0
IsKeyed kv =
    Lacks b':' kv.predecessor_id × Lacks b':' kv.current_account_id × (is_empty kv.key ≡ false)

module _ {W E : Type 0} (redis : Redis W E) (queries : Queries W E) (chain_id : Str)
    (scored : W → Str → Str → ℤ → Type 0) (laws : IsConfined redis queries scored) where
  -- Nothing is in the history of the empty key.
  abbrev pub Silent : Str → Str → W → Type 0
  Silent p c w = (m : Str) (s : ℤ) → scored w (history_key p c []) m s → ⊥

  -- Whatever an action does, it keeps that.
  abbrev Keeps : {A : Type 0} → Str → Str → (W → Result A E × W) → Type 0
  Keeps p c m = (w : W) → Silent p c w → Silent p c (m w).1

  then_do-Keeps :
      {A : Type 0} (p c : Str) (m : W → Result (Unit {0}) E × W) (k : W → Result A E × W)
      → Keeps p c m
      → Keeps p c k
      → Keeps p c (m then_do k)
  then_do-Keeps p c m k first second w h = elim (Result-cases (m w).0) [
    | inl (u, good) ↦
        let same : (k (m w).1).1 ≡ ((m then_do k) w).1 = ground (arith, good) in
        subst (λ x. Silent p c x) same (second (m w).1 (first w h))
    | inr (e, bad) ↦
        let same : (m w).1 ≡ ((m then_do k) w).1 = ground (arith, bad) in
        subst (λ x. Silent p c x) same (first w h)
  ]

  Silent-connect : (p c : Str) (w : W) → Silent p c w → Silent p c (redis.connect w).1
  Silent-connect p c w h m s = λ i. h m s (laws.connect_adds (history_key p c []) m s w i)

  sadd-Keeps : (p c k n : Str) → Keeps p c (redis.sadd k n)
  sadd-Keeps p c k n w h m s i = h m s (laws.sadd_adds k n (history_key p c []) m s w i)

  write_kv-Silent :
      (p c : Str) (kv : FastDataKv) (json : Str) (w : W)
      → Lacks b':' p
      → Lacks b':' c
      → IsKeyed kv
      → Silent p c w
      → Silent p c (write_kv redis chain_id kv json w).1
  unfolding write_kv
  write_kv-Silent p c kv json w hp hc (lack_p, lack_c, full) h =
      let history = kv_history_key kv.predecessor_id kv.current_account_id kv.key in
      let key = kv_key kv.predecessor_id kv.current_account_id kv.key in
      let apart =
        history_key-ne-kv_history_key p c kv.predecessor_id kv.current_account_id kv.key hp lack_p
          hc lack_c full in
      let add_contract = redis.sadd (contracts_key kv.predecessor_id) kv.current_account_id in
      let add_account = redis.sadd (accounts_key kv.current_account_id) kv.predecessor_id in
      let add_history = redis.zadd history json (as_i64 kv.block_height) in
      let rest = then_do-Keeps p c add_contract finished (sadd-Keeps p c _ _) (λ x h0. h0) in
      let rest' =
        then_do-Keeps p c add_account (add_contract then_do finished) (sadd-Keeps p c _ _) rest in
      let rest'' =
        then_do-Keeps p c add_history (add_account then_do add_contract then_do finished)
          (λ x h0 m s i. h0 m s (
            laws.zadd_adds history json (history_key p c []) m (as_i64 kv.block_height) s x apart
              i))
          rest' in
      then_do-Keeps p c (redis.set key json)
        (add_history then_do add_account then_do add_contract then_do finished)
        (λ x h0 m s i. h0 m s (laws.set_adds key json (history_key p c []) m s x i)) rest'' w h

  add_kv-Silent :
      (p c : Str) (kv : FastDataKv) (w : W)
      → Lacks b':' p
      → Lacks b':' c
      → IsKeyed kv
      → Silent p c w
      → Silent p c (add_kv redis chain_id kv w).1
  add_kv-Silent p c kv w hp hc keyed h =
      let h' = Silent-connect p c w h in
      elim (Result-cases (redis.connect w).0) [
        | inr (e, bad) ↦
            let same : (redis.connect w).1 ≡ (add_kv redis chain_id kv w).1 =
              unfold add_kv in ground (arith, bad) in
            subst (λ x. Silent p c x) same h'
        | inl (v, good) ↦
            elim (Result-cases (redis.stored_to_string (stored_entry redis chain_id kv))) [
              | inr (e, bad) ↦
                  let same : (redis.connect w).1 ≡ (add_kv redis chain_id kv w).1 =
                    unfold add_kv in ground (arith, good, bad) in
                  subst (λ x. Silent p c x) same h'
              | inl (json, text) ↦
                  let same : (write_kv redis chain_id kv json (redis.connect w).1).1
                      ≡ (add_kv redis chain_id kv w).1 =
                    unfold add_kv in ground (arith, good, text) in
                  subst (λ x. Silent p c x) same
                    (write_kv-Silent p c kv json (redis.connect w).1 hp hc keyed h')
            ]
      ]

  add_kv_batch-Silent :
      (p c : Str) (kvs : List FastDataKv) (w : W)
      → Lacks b':' p
      → Lacks b':' c
      → All IsKeyed kvs
      → Silent p c w
      → Silent p c (add_kv_batch redis chain_id kvs w).1
  add_kv_batch-Silent p c [] w hp hc keyed h = unfold add_kv_batch in h
  add_kv_batch-Silent p c (kv ∷ kvs) w hp hc (k, ks) h =
      let h' = add_kv-Silent p c kv w hp hc k h in
      elim (Result-cases (add_kv redis chain_id kv w).0) [
        | inr (e, bad) ↦
            let same : (add_kv redis chain_id kv w).1
                ≡ (add_kv_batch redis chain_id (kv ∷ kvs) w).1 =
              unfold add_kv_batch in ground (arith, bad) in
            subst (λ x. Silent p c x) same h'
        | inl (u, good) ↦
            let same : (add_kv_batch redis chain_id kvs (add_kv redis chain_id kv w).1).1
                ≡ (add_kv_batch redis chain_id (kv ∷ kvs) w).1 =
              unfold add_kv_batch in ground (arith, good) in
            subst (λ x. Silent p c x) same
              (add_kv_batch-Silent p c kvs (add_kv redis chain_id kv w).1 hp hc ks h')
      ]

  take_nil : {A : Type 0} (n : ℕ) → take {A = A} n [] ≡ []
  take_nil zero = refl
  take_nil (suc n) = refl

  nothing_among :
      (p c : Str) (a b : ℤ) (w : W) (reply : List (Str × Str))
      → Silent p c w
      → (queries.zrangebyscore_withscores (history_key p c []) a b w).0 ≡ ok reply
      → reply ≡ []
  nothing_among p c a b w [] h got = refl
  nothing_among p c a b w ((m, t) ∷ reply) h got =
      let (s, there) = laws.zrange_only (history_key p c []) m t a b w _ got (inl refl) in
      absurd (h m s there)

  -- Timelines are empty. In a Redis whose commands add to no other sorted set than the one they name, where the
  -- history of the empty key of an account under a contract holds nothing: however many entries with nonempty keys the indexer writes,
  -- and whatever fails, the timeline that the server then returns for the account and the contract,
  -- when connecting and the range succeed, is an empty page that reports no more. No account has a
  -- colon in its name.
  pub get_kv_timeline-add_kv_batch :
      (params : TimelineParams) (kvs : List FastDataKv) (w : W) (v : Unit {0})
      (reply : List (Str × Str))
      → let w' = (add_kv_batch redis chain_id kvs w).1 in
        Lacks b':' params.predecessor_id
        → Lacks b':' params.current_account_id
        → All IsKeyed kvs
        → Silent params.predecessor_id params.current_account_id w
        → (redis.connect w').0 ≡ ok v
        → (queries.zrangebyscore_withscores
            (history_key params.predecessor_id params.current_account_id [])
            (unwrap_or params.from_block (pos 0))
            (unwrap_or params.to_block (pos i64_max))
            (redis.connect w').1).0
          ≡ ok reply
        → (get_kv_timeline redis queries chain_id params w').0 ≡ ok ([], false, false, 0, none)
  unfolding ◌>>=◌ get_kv_timeline zrange pairs_from_value read_history
  get_kv_timeline-add_kv_batch params kvs w v reply hp hc keyed h connected got =
      let w' = (add_kv_batch redis chain_id kvs w).1 in
      let p = params.predecessor_id in
      let c = params.current_account_id in
      let h' = Silent-connect p c w' (add_kv_batch-Silent p c kvs w hp hc keyed h) in
      let none_there = nothing_among p c _ _ (redis.connect w').1 reply h' got in
      ground (arith, connected, got, none_there, take_nil {A = ℤ × Str} params.limit)
