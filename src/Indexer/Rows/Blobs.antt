-- ===== src/Indexer/Rows/Blobs.antt =====
-- The rows of the table `blobs`, fastdata-indexer/scylladb/src/types.rs.
use key_manager.Base.{
  ℕ, ◌/◌, ◌≤◌, ◌≡◌, refl, ◌⊎◌, inl, inr, Option, none, some, Result, ok, ◌>>=◌, arith, Option-cases,
}
use key_manager.Base.Text.{Str, Bytes, codes}
use key_manager.Base.Decimal.{ℤ, pos}
use key_manager.Indexer.Rows.{
  Ids, RowError, i32_max, i64_max, signed, unsigned, parsed, ◌>>=?◌, transposed, map_option,
}
use key_manager.Indexer.Rows.Laws.{IsStable, signed_fits, parsed_back, transposed_back}

abbrev pub block_height_bucket_size : ℕ
block_height_bucket_size = 10_000

pub record FastData (ids : Ids) : Type 0 where
  pub receipt_id : ids.Hash
  pub action_index : ℕ
  pub suffix : Str
  pub bytes : Bytes
  pub tx_hash : Option ids.Hash
  pub signer_id : ids.Account
  pub predecessor_id : ids.Account
  pub current_account_id : ids.Account
  pub block_height : ℕ
  pub block_timestamp : ℕ
  pub shard_id : ℕ
  pub receipt_index : ℕ

pub record FastDataRow : Type 0 where
  pub receipt_id : Str
  pub action_index : ℤ
  pub suffix : Str
  pub block_height_bucket : ℤ
  pub bytes : Bytes
  pub tx_hash : Option Str
  pub signer_id : Str
  pub predecessor_id : Str
  pub current_account_id : Str
  pub block_height : ℤ
  pub block_timestamp : ℤ
  pub shard_id : ℤ
  pub receipt_index : ℤ

module _ (ids : Ids) where
  open ids use {Hash, Account, hash_to_string, hash_parse, account_to_string, account_parse}

  unfoldable pub to_row : FastData ids → Option FastDataRow
  unfolding signed
  to_row fastdata = signed i32_max fastdata.action_index >>=? λ action_index.
      signed i64_max (fastdata.block_height / block_height_bucket_size) >>=? λ block_height_bucket.
      signed i64_max fastdata.block_height >>=? λ block_height.
      signed i64_max fastdata.block_timestamp >>=? λ block_timestamp.
      signed i32_max fastdata.shard_id >>=? λ shard_id.
      signed i32_max fastdata.receipt_index >>=? λ receipt_index. some (record {
        receipt_id = hash_to_string fastdata.receipt_id;
        action_index = action_index;
        suffix = fastdata.suffix;
        block_height_bucket = block_height_bucket;
        bytes = fastdata.bytes;
        tx_hash = map_option hash_to_string fastdata.tx_hash;
        signer_id = account_to_string fastdata.signer_id;
        predecessor_id = account_to_string fastdata.predecessor_id;
        current_account_id = account_to_string fastdata.current_account_id;
        block_height = block_height;
        block_timestamp = block_timestamp;
        shard_id = shard_id;
        receipt_index = receipt_index;
      })

  unfoldable pub from_row : FastDataRow → Result (FastData ids) RowError
  unfolding unsigned parsed transposed
  from_row row = do
    receipt_id ← parsed (codes "receipt_id") hash_parse row.receipt_id
    action_index ← unsigned (codes "action_index") row.action_index
    tx_hash ← transposed (parsed (codes "tx_hash") hash_parse) row.tx_hash
    signer_id ← parsed (codes "signer_id") account_parse row.signer_id
    predecessor_id ← parsed (codes "predecessor_id") account_parse row.predecessor_id
    current_account_id ← parsed (codes "current_account_id") account_parse row.current_account_id
    block_height ← unsigned (codes "block_height") row.block_height
    block_timestamp ← unsigned (codes "block_timestamp") row.block_timestamp
    shard_id ← unsigned (codes "shard_id") row.shard_id
    receipt_index ← unsigned (codes "receipt_index") row.receipt_index
    ok (record {
      receipt_id = receipt_id;
      action_index = action_index;
      suffix = row.suffix;
      bytes = row.bytes;
      tx_hash = tx_hash;
      signer_id = signer_id;
      predecessor_id = predecessor_id;
      current_account_id = current_account_id;
      block_height = block_height;
      block_timestamp = block_timestamp;
      shard_id = shard_id;
      receipt_index = receipt_index;
    })

  -- Every number fits its column.
  abbrev pub Fits : FastData ids → Type 0
  Fits fastdata =
      (fastdata.action_index ≤ i32_max)
      × (fastdata.block_height ≤ i64_max)
      × (fastdata.block_timestamp ≤ i64_max)
      × (fastdata.shard_id ≤ i32_max)
      × (fastdata.receipt_index ≤ i32_max)

  -- the row of a record whose numbers fit
  row_of : FastData ids → FastDataRow
  row_of fastdata = (record {
    receipt_id = hash_to_string fastdata.receipt_id;
    action_index = pos fastdata.action_index;
    suffix = fastdata.suffix;
    block_height_bucket = pos (fastdata.block_height / block_height_bucket_size);
    bytes = fastdata.bytes;
    tx_hash = map_option hash_to_string fastdata.tx_hash;
    signer_id = account_to_string fastdata.signer_id;
    predecessor_id = account_to_string fastdata.predecessor_id;
    current_account_id = account_to_string fastdata.current_account_id;
    block_height = pos fastdata.block_height;
    block_timestamp = pos fastdata.block_timestamp;
    shard_id = pos fastdata.shard_id;
    receipt_index = pos fastdata.receipt_index;
  })

  to_row-row_of :
      (fastdata : FastData ids) → Fits fastdata → to_row fastdata ≡ some (row_of fastdata)
  unfolding to_row row_of
  to_row-row_of fastdata (h0, h1, h2, h3, h4) =
      rw
        (
          signed_fits i32_max fastdata.action_index h0,
          signed_fits i64_max (fastdata.block_height / block_height_bucket_size)
              (omega (arith, h1)),
          signed_fits i64_max fastdata.block_height h1,
          signed_fits i64_max fastdata.block_timestamp h2,
          signed_fits i32_max fastdata.shard_id h3,
          signed_fits i32_max fastdata.receipt_index h4,
        )
        refl

  to_row-Fits :
      (fastdata : FastData ids) (r : FastDataRow) → to_row fastdata ≡ some r → Fits fastdata
  unfolding to_row signed
  to_row-Fits fastdata r h = ground (arith, h)

  module _ (stable : IsStable ids) where
    from_row-row_of : (fastdata : FastData ids) → from_row (row_of fastdata) ≡ ok fastdata
    unfolding from_row row_of unsigned
    from_row-row_of fastdata =
        rw
          (
            parsed_back (codes "receipt_id") hash_parse _ fastdata.receipt_id
                (stable.hash_parses fastdata.receipt_id),
            transposed_back ids stable (codes "tx_hash") fastdata.tx_hash,
            parsed_back (codes "signer_id") account_parse _ fastdata.signer_id
                (stable.account_parses fastdata.signer_id),
            parsed_back (codes "predecessor_id") account_parse _ fastdata.predecessor_id
                (stable.account_parses fastdata.predecessor_id),
            parsed_back (codes "current_account_id") account_parse _ fastdata.current_account_id
                (stable.account_parses fastdata.current_account_id),
          )
          refl

    -- If near's types are parsed back from their texts: a record whose numbers fit is written as a row
    -- from which the same record is read back; any other makes the writer panic.
    pub from_row-to_row :
        (fastdata : FastData ids)
        → ((r : FastDataRow) × Fits fastdata
            × (to_row fastdata ≡ some r)
            × (from_row r ≡ ok fastdata))
          ⊎ ((Fits fastdata → ⊥) × (to_row fastdata ≡ none))
    from_row-to_row fastdata = elim (Option-cases (to_row fastdata)) [
      | inl panics ↦
          inr ((λ fits. absurd (ground (arith, to_row-row_of fastdata fits, panics))), panics)
      | inr (r, there) ↦
          let fits = to_row-Fits fastdata r there in
          inl (row_of fastdata, fits, to_row-row_of fastdata fits, from_row-row_of fastdata)
    ]
