-- ===== src/Indexer/Buckets.antt =====
-- `get_suffix_data` of fastdata-indexer/scylladb/src/lib.rs: the blobs of a suffix in a range of
-- heights, bucket by bucket. The query for one bucket is a parameter, with the values that it binds: suffix, bucket, and the two heights; a stream is the list of what
-- it yields. A height beyond i64 makes the loop panic: `none`.
pub mod Laws
mod Tests
use key_manager.Base.{
  ℕ, zero, suc, ◌+◌, ◌-◌, ◌/◌, Bool, ◌&&◌, Option, none, some, List, [], ◌∷◌, ◌++◌, map, Result, ok,
  err, ltb, leb, if◌then◌else◌,
}
use key_manager.Base.Text.{Str}
use key_manager.Indexer.Rows.{Ids, RowError, i64_max}
use key_manager.Indexer.Rows.Blobs.{FastData, FastDataRow, from_row, block_height_bucket_size}

abbrev pub max_bucket_span : ℕ
max_bucket_span = 1_000

pub data FetchError (E : Type 0) : Type 0 where
  too_large : (span from to : ℕ) → FetchError E
  database : E → FetchError E
  bad_row : RowError → FetchError E

-- `count` buckets from `bucket` on
abbrev pub buckets : ℕ → ℕ → List ℕ
buckets zero bucket = []
buckets (suc count) bucket = bucket ∷ buckets count (bucket + 1)

module _ (ids : Ids) {E : Type 0}
    (execute : Str → ℕ → ℕ → ℕ → Result (List (Result FastDataRow E)) E) where
  unfoldable pub convert : Result FastDataRow E → Result (FastData ids) (FetchError E)
  convert (err e) = err (database e)
  convert (ok row) = elim (from_row ids row) [ ok fastdata ↦ ok fastdata | err e ↦ err (bad_row e) ]

  -- the loop, and the chain of the buckets' streams
  unfoldable pub bucket_streams :
      (suffix : Str) (from to : ℕ)
      → List ℕ
      → Option (Result (List (Result (FastData ids) (FetchError E))) (FetchError E))
  unfolding convert
  bucket_streams suffix from to [] = some (ok [])
  bucket_streams suffix from to (bucket ∷ bs) =
      let rest = bucket_streams suffix from to bs in
      if leb bucket i64_max && leb from i64_max && leb to i64_max
      then elim (execute suffix bucket from to) [
        | err e ↦ some (err (database e))
        | ok rows ↦ elim rest [
          | none ↦ none
          | some later ↦ elim later [
            | err e ↦ some (err e)
            | ok streams ↦ some (ok (map convert rows ++ streams))
          ]
        ]
      ]
      else none

  unfoldable pub get_suffix_data :
      (suffix : Str) (from_block_height to_block_height : ℕ)
      → Option (Result (List (Result (FastData ids) (FetchError E))) (FetchError E))
  unfolding bucket_streams
  get_suffix_data suffix from_block_height to_block_height =
      let from_bucket = from_block_height / block_height_bucket_size in
      let to_bucket = to_block_height / block_height_bucket_size in
      if ltb max_bucket_span (to_bucket - from_bucket)
      then some (err (too_large (to_bucket - from_bucket) from_block_height to_block_height))
      else bucket_streams suffix from_block_height to_block_height
          (buckets (suc to_bucket - from_bucket) from_bucket)
