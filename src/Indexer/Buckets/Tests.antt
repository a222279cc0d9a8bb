-- ===== src/Indexer/Buckets/Tests.antt =====
-- A range over two buckets.
use key_manager.Base.{ℕ, ◌≡◌, ◌++◌, ◌/◌, some, List, [], ◌∷◌, map, Result, ok, err, arith}
use key_manager.Base.Text.{Str, codes}
use key_manager.Base.Decimal.{pos}
use key_manager.Indexer.Rows.{Ids}
use key_manager.Indexer.Rows.Blobs.{FastData, FastDataRow}
use key_manager.Indexer.Buckets.{FetchError, convert, get_suffix_data}
use key_manager.Indexer.Buckets.Laws.{get_suffix_data_lem}

abbrev text_ids : Ids
text_ids = record {
  Hash = Str;
  Account = Str;
  hash_to_string = λ h. h;
  hash_parse = λ s. some s;
  account_to_string = λ a. a;
  account_parse = λ s. some s;
}

abbrev row : ℕ → FastDataRow
row bucket = record {
  receipt_id = codes "r";
  action_index = pos 0;
  suffix = codes "kv";
  block_height_bucket = pos bucket;
  bytes = [];
  tx_hash = some (codes "t");
  signer_id = codes "alice.near";
  predecessor_id = codes "alice.near";
  current_account_id = codes "kv.near";
  block_height = pos 10_500;
  block_timestamp = pos 1;
  shard_id = pos 0;
  receipt_index = pos 0;
}

-- each bucket holds one row, and one that cannot be read
abbrev blobs : Str → ℕ → ℕ → ℕ → List (Result FastDataRow Str)
blobs suffix bucket from to = ok (row bucket) ∷ err (codes "row") ∷ []

abbrev answers : Str → ℕ → ℕ → ℕ → Result (List (Result FastDataRow Str)) Str
answers suffix bucket from to = ok (blobs suffix bucket from to)

get_suffix_data_lem_example :
    (before : List (Result (FastData text_ids) (FetchError Str))) × (behind : List
      (Result (FastData text_ids) (FetchError Str)))
    × (get_suffix_data text_ids answers (codes "kv") 9_990 20_005
        ≡ some (
            ok (
              before
              ++ (map (convert text_ids answers) (blobs (codes "kv") (10_500 / 10_000) 9_990 20_005)
                  ++ behind))))
get_suffix_data_lem_example =
    get_suffix_data_lem text_ids blobs (codes "kv") 9_990 20_005 10_500 (omega arith) (omega arith)
      (omega arith) (omega arith)
