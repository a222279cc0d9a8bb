-- ===== src/Server/RedisDb/Heights.antt =====
-- The height that the status of the server shows.
use key_manager.Base.{◌≤◌, ◌≡◌, sym, ap, ◌∙◌, inl, inr, Option, some, ok, arith, Result-cases}
use key_manager.Base.Text.{Str}
use key_manager.Base.Decimal.{ℤ, u64_max, show}
use key_manager.Base.Decimal.RoundTrip.{parse_u64-show}
use key_manager.Indexer.RedisDb
use key_manager.Indexer.RedisDb.{Redis, FastData, add_data, fastdata_key, ◌then_do◌, finished}
use key_manager.Indexer.RedisDb.Writes.{IsRedis, then_do-eq-ok}
use key_manager.Server.Action.{◌>>=◌}
use key_manager.Server.RedisDb.{Queries, meta_key, get_indexer_block_height}
use key_manager.Server.RedisDb.Reads.{IsQueries}

module _ {W E : Type 0} (redis : Redis W E) (queries : Queries W E) (chain_id : Str)
    (value : W → Str → Option Str) (scored : W → Str → Str → ℤ → Type 0)
    (in_set : W → Str → Str → Type 0) (writes : IsRedis redis value scored in_set)
    (reads : IsQueries redis queries value scored) where
  height_value :
      (fastdata : FastData) (w : W) (u : Unit {0})
      → (add_data redis chain_id fastdata w).0 ≡ ok u
      → value (add_data redis chain_id fastdata w).1 (meta_key chain_id)
        ≡ some (show fastdata.block_height)
  unfolding meta_key RedisDb.meta_key
  height_value fastdata w u h = elim (Result-cases (redis.connect w).0) [
    | inr (e, bad) ↦ absurd (unfold add_data in ground (arith, bad, h))
    | inl (v, good) ↦ elim (Result-cases (redis.fastdata_to_string fastdata)) [
      | inr (e, bad) ↦ absurd (unfold add_data in ground (arith, good, bad, h))
      | inl (json, text) ↦
          let w0 = (redis.connect w).1 in
          let key =
            fastdata_key chain_id fastdata.suffix fastdata.block_height fastdata.receipt_id in
          let meta = RedisDb.meta_key chain_id in
          let height = show fastdata.block_height in
          let same : add_data redis chain_id fastdata w
              ≡ (redis.set key json then_do redis.set meta height then_do finished) w0 =
            unfold add_data in ground (arith, good, text) in
          let (u1, set_ok, same1, h1) =
            then_do-eq-ok (redis.set key json) (redis.set meta height then_do finished) w0 u
              (ap (λ p. p.0) (sym same) ∙ h) in
          let w1 = (redis.set key json w0).1 in
          let (u2, meta_ok, same2, h2) = then_do-eq-ok (redis.set meta height) finished w1 u h1 in
          ap (λ p. value p.1 meta) (same ∙ same1 ∙ same2)
          ∙ writes.set_value meta height w1 u2 meta_ok
    ]
  ]

  -- In a Redis whose commands behave as documented: after the main indexer has stored fast data of a block, with success, the
  -- server of the same chain reads that block's height as the indexer's, if connecting and GET succeed. The height
  -- is a u64.
  pub get_indexer_block_height-add_data :
      (fastdata : FastData) (w : W) (u v : Unit {0}) (found : Option Str)
      → let w' = (add_data redis chain_id fastdata w).1 in
        (add_data redis chain_id fastdata w).0 ≡ ok u
        → fastdata.block_height ≤ u64_max
        → (redis.connect w').0 ≡ ok v
        → (redis.get (meta_key chain_id) (redis.connect w').1).0 ≡ ok found
        → (get_indexer_block_height redis queries chain_id w').0 ≡ ok (some fastdata.block_height)
  get_indexer_block_height-add_data fastdata w u v found h fits connected got =
      let w' = (add_data redis chain_id fastdata w).1 in
      let same : found ≡ some (show fastdata.block_height) =
        reads.get_value (meta_key chain_id) (redis.connect w').1 found got
        ∙ reads.connect_value (meta_key chain_id) w'
        ∙ height_value fastdata w u h in
      unfold get_indexer_block_height ◌>>=◌ in
      ground (arith, connected, got, same, parse_u64-show fastdata.block_height fits)
