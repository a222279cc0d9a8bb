-- ===== src/Server/Handlers/Small.antt =====
-- Services for the tests of the handlers: a Redis that counts the commands that it is sent, with one
-- entry under every key, the small JSON, and a request.
use key_manager.Base.{ℕ, ◌+◌, true, none, some, [], ◌∷◌, ok, err}
use key_manager.Base.Text.{Str, codes}
use key_manager.Indexer.RedisDb.{Redis}
use key_manager.Server.Json.Small.{Value, small}
use key_manager.Server.RedisDb.{StoredKvEntry, Queries}
use key_manager.Server.Handlers.{Services, AppState, HttpRequest}

abbrev pub stored : StoredKvEntry
stored = record {
  predecessor_id = codes "alice.near";
  current_account_id = codes "kv.near";
  key = codes "color";
  value = codes "red";
  block_height = 9;
  block_timestamp = 10;
  receipt_id = codes "r";
  tx_hash = codes "t";
}

abbrev pub counting : Redis ℕ Str
counting = record {
  connect = λ n. (ok tt, n + 1);
  get = λ k n. (ok (some (codes "json")), n + 1);
  set = λ k v n. (ok tt, n + 1);
  zadd = λ k m s n. (ok tt, n + 1);
  sadd = λ k m n. (ok tt, n + 1);
  fastdata_to_string = λ fd. ok fd.base64;
  stored_to_string = λ e. ok e.value;
}

abbrev pub reads : Queries ℕ Str
reads = record {
  ping = λ n. (ok tt, n + 1);
  scan = λ p c n. (ok (codes "accounts:a.near" ∷ codes "accounts:b.near" ∷ []), n + 1);
  smembers = λ k n. (ok (codes "a.near" ∷ codes "b.near" ∷ []), n + 1);
  zrangebyscore_withscores = λ k a b n. (ok [], n + 1);
  int_from_value = λ s. err s;
  stored_from_str = λ s. ok stored;
  stored_to_string = λ e. ok e.value;
}

abbrev pub services : Services ℕ Str
services = record {
  json = small;
  serialize = λ e. ok (Value.string e.value);
  event_to_string = λ event. ok event.value;
  redis = counting;
  queries = reads;
  chain_id = codes "mainnet";
  social_contract = codes "social.near";
}

abbrev pub request : HttpRequest
request = record {
  forwarded_for = some (codes "10.0.0.9, 10.0.0.1");
  last_event_id = none;
  realip_remote_addr = none;
  peer_addr = none;
  now = 5;
  utc_now = codes "2025-01-01T00:00:00Z";
}

abbrev pub running : AppState ℕ
running = record { has_db = true; scan_throttle = []; watch_count = 0; world = 0 }
