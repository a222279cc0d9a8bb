-- ===== src/Server/RedisDb/Reads.antt =====
-- What the server reads of what the indexer wrote.
use key_manager.Base.{
  ℕ, ◌≤◌, ◌<◌, ◌≡◌, ap, ◌∙◌, subst, ◌⊎◌, inl, inr, Option, some, List, [], ◌∷◌, ok, err, arith,
  Result-cases, unwrap_or,
}
use key_manager.Base.Text.{Str, codes, ◌==ₛ◌}
use key_manager.Base.Decimal.{ℤ, pos, i64_max, parse_i64, show_int}
use key_manager.Indexer.RedisDb
use key_manager.Indexer.RedisDb.{Redis, FastDataKv, stored_entry, add_kv, as_i64}
use key_manager.Indexer.RedisDb.Writes.{IsRedis, add_kv-IsStored}
use key_manager.Server.Action.{◌>>=◌}
use key_manager.Server.Models.{KvEntry}
use key_manager.Server.Models.Params.{HistoryParams}
use key_manager.Server.RedisDb.{
  get_kv_history, StoredKvEntry, Queries, kv_key, history_key, get_kv, get_kv_at_block, zrange,
  pairs_from_value, from_stored,
}

-- An entry of the indexer as the server's struct reads it.
abbrev pub as_stored : RedisDb.StoredKvEntry → StoredKvEntry
as_stored e = record {
  predecessor_id = e.predecessor_id;
  current_account_id = e.current_account_id;
  key = e.key;
  value = e.value;
  block_height = e.block_height;
  block_timestamp = e.block_timestamp;
  receipt_id = e.receipt_id;
  tx_hash = e.tx_hash;
}

-- What the server is to tell of an entry of the indexer, field by field.
abbrev pub written : FastDataKv → KvEntry
written kv = record {
  predecessor_id = kv.predecessor_id;
  current_account_id = kv.current_account_id;
  key = kv.key;
  value = kv.value;
  block_height = kv.block_height;
  block_timestamp = kv.block_timestamp;
  receipt_id = kv.receipt_id;
  tx_hash = unwrap_or kv.tx_hash [];
  is_deleted = kv.value ==ₛ codes "null";
}

abbrev pub Among : {A : Type 0} → A → List A → Type 0
Among x [] = ⊥
Among x (y ∷ ys) = (x ≡ y) ⊎ Among x ys

-- The documented behaviour of the commands that read, and of serde_json: a read that succeeds tells
-- what is there, connecting changes nothing, a struct is written as an object, which is read back,
-- and a text is an i64 only if it is the decimal form of one.
pub record IsQueries {W E : Type 0} (redis : Redis W E) (queries : Queries W E)
    (value : W → Str → Option Str) (scored : W → Str → Str → ℤ → Type 0) : Type 0 where
  pub connect_value : (k : Str) (w : W) → value (redis.connect w).1 k ≡ value w k
  pub connect_scored :
      (k m : Str) (s : ℤ) (w : W) → scored w k m s → scored (redis.connect w).1 k m s
  pub get_value :
      (k : Str) (w : W) (found : Option Str) → (redis.get k w).0 ≡ ok found → found ≡ value w k
  pub zrange_scored :
      (k m : Str) (a b s : ℕ) (w : W) (reply : List (Str × Str))
      → (queries.zrangebyscore_withscores k (pos a) (pos b) w).0 ≡ ok reply
      → scored w k m (pos s)
      → a ≤ s
      → s ≤ b
      → Among (m, show_int (pos s)) reply
  pub stored_object :
      (e : RedisDb.StoredKvEntry) (json : Str)
      → redis.stored_to_string e ≡ ok json
      → (rest : Str) × (json ≡ b'{' ∷ rest)
  pub stored_from_str-stored_to_string :
      (e : RedisDb.StoredKvEntry) (json : Str)
      → redis.stored_to_string e ≡ ok json
      → queries.stored_from_str json ≡ ok (as_stored e)
  pub int_decimal : (s : Str) (z : ℤ) → queries.int_from_value s ≡ ok z → parse_i64 s ≡ some z

module _ {W E : Type 0} (redis : Redis W E) (queries : Queries W E) (chain_id : Str)
    (value : W → Str → Option Str) (scored : W → Str → Str → ℤ → Type 0)
    (in_set : W → Str → Str → Type 0) (writes : IsRedis redis value scored in_set)
    (reads : IsQueries redis queries value scored) where
  -- The server and the indexer print keys alike.
  key_value :
      (kv : FastDataKv) (w : W) (json : Str)
      → value w (RedisDb.kv_key kv.predecessor_id kv.current_account_id kv.key) ≡ some json
      → value w (kv_key kv.predecessor_id kv.current_account_id kv.key) ≡ some json
  unfolding kv_key RedisDb.kv_key
  key_value kv w json h = h

  -- In a Redis whose commands behave as documented: after a write of the indexer that reported success, `get_kv` of the server for its account, contract and key returns
  -- the entry that was written, field by field, with an empty text for a missing hash of the transaction and marked as deleted exactly if its value is `null`, if connecting and GET succeed.
  pub get_kv-add_kv :
      (kv : FastDataKv) (w : W) (u v : Unit {0}) (found : Option Str)
      → let w' = (add_kv redis chain_id kv w).1 in
        let key = kv_key kv.predecessor_id kv.current_account_id kv.key in
        (add_kv redis chain_id kv w).0 ≡ ok u
        → (redis.connect w').0 ≡ ok v
        → (redis.get key (redis.connect w').1).0 ≡ ok found
        → (get_kv redis queries chain_id kv.predecessor_id kv.current_account_id kv.key w').0
          ≡ ok (some (written kv))
  get_kv-add_kv kv w u v found h connected got =
      let w' = (add_kv redis chain_id kv w).1 in
      let key = kv_key kv.predecessor_id kv.current_account_id kv.key in
      let (json, text, stored) =
        add_kv-IsStored redis chain_id value scored in_set writes kv w u h in
      let same : found ≡ some json =
        reads.get_value key (redis.connect w').1 found got
        ∙ reads.connect_value key w'
        ∙ key_value kv w' json stored.0 in
      unfold get_kv ◌>>=◌ from_stored in
      ground (
        arith,
        connected,
        got,
        same,
        reads.stored_from_str-stored_to_string (stored_entry redis chain_id kv) json text,
      )

  pairs-object :
      (reply : List (Str × Str)) (rest score : Str)
      → Among (b'{' ∷ rest, score) reply
      → (e : E) × (pairs_from_value redis queries chain_id reply ≡ err e)
  unfolding pairs_from_value
  pairs-object [] rest score h = absurd h
  pairs-object (pair ∷ pairs) rest score (inl same) =
      elim (Result-cases (queries.int_from_value pair.0)) [
        | inr (e, bad) ↦ (e, ground (arith, bad))
        | inl (z, good) ↦ absurd (
            unfold parse_i64 in ground (arith, reads.int_decimal pair.0 z good, ap (λ p. p.0) same))
      ]
  pairs-object (pair ∷ pairs) rest score (inr later) =
      let (e, bad) = pairs-object pairs rest score later in
      elim (Result-cases (queries.int_from_value pair.0)) [
        | inr (e', bad') ↦ (e', ground (arith, bad'))
        | inl (z, good) ↦ (e, ground (arith, good, bad))
      ]

  zrange-object :
      (key json : Str) (a b s : ℕ) (w : W) (rest : Str)
      → json ≡ b'{' ∷ rest
      → scored w key json (pos s)
      → a ≤ s
      → s ≤ b
      → (e : E) × ((zrange redis queries chain_id key (pos a) (pos b) w).0 ≡ err e)
  unfolding zrange ◌>>=◌
  zrange-object key json a b s w rest object h low high =
      elim (Result-cases (queries.zrangebyscore_withscores key (pos a) (pos b) w).0) [
        | inr (e, bad) ↦ (e, ground (arith, bad))
        | inl (reply, good) ↦
            let among = reads.zrange_scored key json a b s w reply good h low high in
            let (e, bad) =
              pairs-object reply rest (show_int (pos s))
                (subst (λ t. Among (t, show_int (pos s)) reply) object among) in
            (e, ground (arith, good, bad))
      ]

  -- The history of an entry holds what `add_kv` put there, also when a connection was made since.
  stored_in_history :
      (kv : FastDataKv) (w : W) (u : Unit {0}) (a b : ℕ)
      → (add_kv redis chain_id kv w).0 ≡ ok u
      → a ≤ kv.block_height
      → kv.block_height ≤ b
      → kv.block_height < 9223372036854775808
      → (e : E) × ((zrange redis queries chain_id
            (history_key kv.predecessor_id kv.current_account_id kv.key)
            (pos a)
            (pos b)
            (redis.connect (add_kv redis chain_id kv w).1).1).0
          ≡ err e)
  unfolding history_key RedisDb.kv_history_key
  stored_in_history kv w u a b h low high small =
      let (json, text, stored) =
        add_kv-IsStored redis chain_id value scored in_set writes kv w u h in
      let (rest, object) = reads.stored_object (stored_entry redis chain_id kv) json text in
      let w' = (add_kv redis chain_id kv w).1 in
      let key = RedisDb.kv_history_key kv.predecessor_id kv.current_account_id kv.key in
      let height : as_i64 kv.block_height ≡ pos kv.block_height = ground (arith, small) in
      zrange-object key json a b kv.block_height (redis.connect w').1 rest object
        (reads.connect_scored key json (pos kv.block_height) w'
          (subst (λ z. scored w' key json z) height stored.1))
        low high

  -- The histories cannot be read. In a Redis whose commands behave as documented: after a write of the indexer at a height below 2^63 that reported success, `get_kv_at_block` of the server
  -- fails for that key at any such height from there on, and so does `get_kv_history` over a range
  -- with that height in it: the reply lists members before scores, and the code reads the JSON of
  -- the first member as a number.
  pub get_kv_history-add_kv :
      (kv : FastDataKv) (w : W) (u : Unit {0}) (height a b : ℕ) (params : HistoryParams)
      → let w' = (add_kv redis chain_id kv w).1 in
        (add_kv redis chain_id kv w).0 ≡ ok u
        → kv.block_height ≤ height
        → height < 9223372036854775808
        → params.predecessor_id ≡ kv.predecessor_id
        → params.current_account_id ≡ kv.current_account_id
        → params.key ≡ kv.key
        → unwrap_or params.from_block (pos 0) ≡ pos a
        → unwrap_or params.to_block (pos i64_max) ≡ pos b
        → a ≤ kv.block_height
        → kv.block_height ≤ b
        → ((e : E) × ((get_kv_at_block redis queries chain_id kv.predecessor_id
                kv.current_account_id kv.key height w').0
              ≡ err e))
          × ((e : E) × ((get_kv_history redis queries chain_id params w').0 ≡ err e))
  unfolding get_kv_at_block get_kv_history ◌>>=◌
  get_kv_history-add_kv kv w u height a b params h below small same_p same_c same_k from to low
        high =
      let w' = (add_kv redis chain_id kv w).1 in
      let key = history_key kv.predecessor_id kv.current_account_id kv.key in
      let end : as_i64 height ≡ pos height = ground (arith, small) in
      let (e, bad) = stored_in_history kv w u 0 height h (omega arith) below (omega arith) in
      let (e', bad') = stored_in_history kv w u a b h low high (omega arith) in
      let reached = Result-cases (redis.connect w').0 in
      elim reached [
        | inr (why, failed) ↦ ((why, ground (arith, failed)), (why, ground (arith, failed)))
        | inl (v, good) ↦ (
          (e, ground (arith, good, end, bad)),
          (e', ground (arith, good, same_p, same_c, same_k, from, to, bad')),
        )
      ]
