-- ===== src/Indexer/Blocks/Tests.antt =====
-- The main indexer at a block with one upload.
use key_manager.Base.{◌≡◌, refl, true, none, some, List, [], ◌∷◌, All}
use key_manager.Base.Text.{Str, Bytes, codes, strip_prefix, len, ◌==ₛ◌}
use key_manager.Indexer.RedisDb.{FastData}
use key_manager.Indexer.Blocks.{
  function_call, other, Block, block_data, shards_data, shard_data, actions_data, action_data,
  is_invalid_suffix, passes_filter, Loop,
}
use key_manager.Indexer.Blocks.Extract.{IsIndexed, block_data-IsIndexed}
use key_manager.Server.RedisDb.Small.{World}

abbrev upload : Block
upload = record {
  height = 77;
  timestamp = 5;
  shards =
      record {
        shard_id = 0;
        receipt_execution_outcomes =
            record {
              receipt_id = codes "r";
              predecessor_id = codes "alice.near";
              receiver_id = codes "kv.near";
              tx_hash = none;
              receipt =
                  some (codes "alice.near", function_call (codes "__fastdata_kv") [] ∷ other ∷ []);
            }
            ∷ [];
      }
      ∷ [];
}

abbrev as_text : Bytes → Str
as_text b = b

block_data-IsIndexed_example :
    All
      (IsIndexed as_text (some (codes "kv.near" ∷ [])) upload)
      (block_data as_text (some (codes "kv.near" ∷ [])) upload)
block_data-IsIndexed_example = block_data-IsIndexed as_text (some (codes "kv.near" ∷ [])) upload

abbrev datum : FastData
datum = record {
  receipt_id = codes "r";
  action_index = 0;
  suffix = codes "kv";
  base64 = [];
  tx_hash = none;
  signer_id = codes "alice.near";
  predecessor_id = codes "alice.near";
  current_account_id = codes "kv.near";
  block_height = 77;
  block_timestamp = 5;
  shard_id = 0;
  receipt_index = 0;
}

the_datum : block_data as_text none upload ≡ datum ∷ []
unfolding block_data shards_data shard_data actions_data action_data is_invalid_suffix passes_filter
    strip_prefix len ◌==ₛ◌
the_datum = refl

abbrev net : Str
net = codes "mainnet"

abbrev fresh : Loop World
fresh = record { is_running = true; consecutive_checkpoint_failures = 0; database = ([], [], []) }

abbrev in_order : World → List FastData → List FastData
in_order w xs = xs
