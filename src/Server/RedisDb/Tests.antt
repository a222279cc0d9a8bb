-- ===== src/Server/RedisDb/Tests.antt =====
-- The queries of the server behind a write of the indexer to the small Redis.
use key_manager.Base.{◌≡◌, refl, none, some, [], ◌∷◌, false, ok, err, arith}
use key_manager.Base.Text.{Str, codes, ◌==ₛ◌}
use key_manager.Base.Decimal.{pos, i64_max}
use key_manager.Indexer.RedisDb.{
  FastData, FastDataKv, add_kv, add_kv_batch, add_data, write_kv, kv_history_key,
}
use key_manager.Server.Models.Params.{HistoryParams, TimelineParams}
use key_manager.Server.RedisDb.{
  kv_key, history_key, get_kv, get_kv_at_block, get_kv_history, get_kv_timeline,
  get_indexer_block_height,
}
use key_manager.Server.RedisDb.Reads.{written, get_kv-add_kv, get_kv_history-add_kv}
use key_manager.Server.RedisDb.Timeline.{get_kv_timeline-add_kv_batch}
use key_manager.Server.RedisDb.Heights.{get_indexer_block_height-add_data}
use key_manager.Server.RedisDb.Small.{
  World, db, queries, value, Scored, InSet, db-IsRedis, db-IsQueries, db-IsConfined,
}

abbrev entry : FastDataKv
entry = record {
  receipt_id = codes "r";
  action_index = 0;
  tx_hash = none;
  signer_id = codes "alice.near";
  predecessor_id = codes "alice.near";
  current_account_id = codes "kv.near";
  block_height = 9;
  block_timestamp = 10;
  shard_id = 1;
  receipt_index = 2;
  order_id = 100002000;
  key = codes "color";
  value = codes "red";
  encrypted_key_id = none;
}

abbrev empty : World
empty = ([], [], [])

abbrev net : Str
net = codes "mainnet"

abbrev after : World
after = (add_kv db net entry empty).1

writes : (add_kv db net entry empty).0 ≡ ok tt
unfolding add_kv write_kv
writes = refl

finds :
    (db.get (kv_key (codes "alice.near") (codes "kv.near") (codes "color")) after).0
    ≡ ok (value after (kv_key (codes "alice.near") (codes "kv.near") (codes "color")))
finds = refl

get_kv-add_kv_example :
    (get_kv db queries net (codes "alice.near") (codes "kv.near") (codes "color") after).0
    ≡ ok (some (written entry))
get_kv-add_kv_example =
    get_kv-add_kv db queries net value Scored InSet db-IsRedis db-IsQueries entry empty tt tt _
      writes refl finds

abbrev history : HistoryParams
history = record {
  predecessor_id = codes "alice.near";
  current_account_id = codes "kv.near";
  key = codes "color";
  limit = 100;
  order = codes "desc";
  from_block = none;
  to_block = some (pos 50);
  fields = none;
  value_format = none;
  cursor = none;
}

get_kv_history-add_kv_example :
    ((e : Str) × ((get_kv_at_block db queries net
          (codes "alice.near")
          (codes "kv.near")
          (codes "color")
          12
          after).0
        ≡ err e))
    × ((e : Str) × ((get_kv_history db queries net history after).0 ≡ err e))
get_kv_history-add_kv_example =
    get_kv_history-add_kv db queries net value Scored InSet db-IsRedis db-IsQueries entry empty tt
      12 0 50 history writes (omega arith) (omega arith) refl refl refl refl refl (omega arith)
      (omega arith)

abbrev timeline : TimelineParams
timeline = record {
  predecessor_id = codes "alice.near";
  current_account_id = codes "kv.near";
  limit = 100;
  order = codes "desc";
  from_block = none;
  to_block = none;
  fields = none;
  value_format = none;
  cursor = none;
}

silent :
    (queries.zrangebyscore_withscores
      (history_key (codes "alice.near") (codes "kv.near") [])
      (pos 0)
      (pos i64_max)
      (add_kv_batch db net (entry ∷ []) empty).1).0
    ≡ ok []
unfolding add_kv_batch write_kv history_key kv_history_key ◌==ₛ◌
silent = refl

get_kv_timeline-add_kv_batch_example :
    (get_kv_timeline db queries net timeline (add_kv_batch db net (entry ∷ []) empty).1).0
    ≡ ok ([], false, false, 0, none)
get_kv_timeline-add_kv_batch_example =
    get_kv_timeline-add_kv_batch db queries net Scored db-IsConfined timeline (entry ∷ []) empty tt
      [] (ground arith) (ground arith) ((ground arith, ground arith, refl), tt) (λ m s i. i) refl
      silent

abbrev fastdata : FastData
fastdata = record {
  receipt_id = codes "r";
  action_index = 0;
  suffix = codes "kv";
  base64 = codes "e30=";
  tx_hash = none;
  signer_id = codes "alice.near";
  predecessor_id = codes "alice.near";
  current_account_id = codes "kv.near";
  block_height = 77;
  block_timestamp = 10;
  shard_id = 1;
  receipt_index = 2;
}

stores : (add_data db net fastdata empty).0 ≡ ok tt
unfolding add_data
stores = refl

get_indexer_block_height-add_data_example :
    (get_indexer_block_height db queries net (add_data db net fastdata empty).1).0 ≡ ok (some 77)
get_indexer_block_height-add_data_example =
    get_indexer_block_height-add_data db queries net value Scored InSet db-IsRedis db-IsQueries
      fastdata empty tt tt _ stores (omega arith) refl refl
