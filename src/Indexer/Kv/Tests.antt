-- ===== src/Indexer/Kv/Tests.antt =====
-- The key-value indexer over a small Redis.
use key_manager.Base.{
  ◌<◌, ◌≤◌, ◌≡◌, refl, ◌⊎◌, true, false, none, some, List, [], ◌∷◌, ◌++◌, length, All,
}
use key_manager.Base.Text.{Str, codes, strip_prefix, split_once, len}
use key_manager.Indexer.OrderId.{encode, compute_order_id_unchecked}
use key_manager.Indexer.RedisDb.{
  FastData, add_kv_batch, add_kv, write_kv, set_last_processed_block_height,
}
use key_manager.Indexer.Kv.{
  Decoding, detect_encrypted, trim_start, trim_end, kv_entry, item_entries, parse_kv_entries,
  fast_data, end_of_range, redis_sink, State, continue, handle, flush_all, flush_rows,
}
use key_manager.Indexer.Kv.Entries.{Entries, object, parse_kv_entries-Entries}
use key_manager.Indexer.Kv.Loop.{done, step, received}
use key_manager.Indexer.Kv.Recorded.{OnRecord, end_of_range-OnRecord}
use key_manager.Server.RedisDb.Small.{World, db, value, Scored, InSet, db-IsRedis, db-IsLasting}

-- Every fast data is the object `{"a": "1", "": "2"}`.
abbrev two_items : Decoding
two_items = record {
  Value = Str;
  base64_decode = λ s. some s;
  from_slice = λ b. some b;
  as_object = λ v. some ((codes "a", codes "1") ∷ ([], codes "2") ∷ []);
  to_string = λ v. some v;
}

abbrev datum : FastData
datum = record {
  receipt_id = codes "r";
  action_index = 0;
  suffix = codes "kv";
  base64 = codes "e30=";
  tx_hash = none;
  signer_id = codes "alice.near";
  predecessor_id = codes "alice.near";
  current_account_id = codes "kv.near";
  block_height = 9;
  block_timestamp = 10;
  shard_id = 1;
  receipt_index = 2;
}

parse_kv_entries-Entries_example :
    ((object two_items datum ≡ none) × (parse_kv_entries two_items datum ≡ []))
    ⊎ ((items : List (Str × Str)) × (object two_items datum ≡ some items)
        × (((256 < length items) × (parse_kv_entries two_items datum ≡ []))
            ⊎ ((length items ≤ 256)
                × Entries two_items datum items (parse_kv_entries two_items datum))))
parse_kv_entries-Entries_example = parse_kv_entries-Entries two_items datum

abbrev net : Str
net = codes "mainnet"

abbrev empty : State World
empty = record { is_running = true; rows = []; database = ([], [], []) }

takes_datum :
    (next : State World) × (handle two_items (redis_sink db net) (fast_data datum) false empty
      ≡ continue next)
unfolding handle parse_kv_entries item_entries kv_entry detect_encrypted trim_start trim_end
    compute_order_id_unchecked encode flush_all len strip_prefix split_once
takes_datum = (_, refl)

ends_range :
    (next : State World) × (handle two_items
        (redis_sink db net)
        (end_of_range 9)
        false
        takes_datum.0
      ≡ continue next)
unfolding handle flush_all flush_rows takes_datum add_kv_batch add_kv write_kv
    set_last_processed_block_height
ends_range = (_, refl)

end_of_range-OnRecord_example :
    (ends_range.0.rows ≡ [])
    × All
        (λ kv.
          OnRecord two_items db net value Scored InSet db-IsRedis db-IsLasting kv
            ends_range.0.database)
        (empty.rows ++ received two_items (redis_sink db net) ((fast_data datum, false) ∷ []))
end_of_range-OnRecord_example =
    end_of_range-OnRecord two_items db net value Scored InSet db-IsRedis db-IsLasting
      ((fast_data datum, false) ∷ []) 9 false empty takes_datum.0 ends_range.0
      (step (fast_data datum) false empty takes_datum.0 takes_datum.0 takes_datum.1
        (done takes_datum.0))
      ends_range.1
