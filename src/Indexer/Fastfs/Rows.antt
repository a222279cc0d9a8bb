-- ===== src/Indexer/Fastfs/Rows.antt =====
-- The rows of the table `s_fastfs_v2`, fastdata-indexer/fastfs-sub-indexer/src/scylla_types.rs.
use key_manager.Base.{
  ℕ, ◌≤◌, ◌≡◌, refl, ◌⊎◌, inl, inr, Option, none, some, Result, ok, ◌>>=◌, arith, Option-cases,
}
use key_manager.Base.Text.{Str, Bytes, codes}
use key_manager.Base.Decimal.{ℤ, pos}
use key_manager.Indexer.Rows.{
  Ids, RowError, i32_max, i64_max, signed, unsigned, parsed, ◌>>=?◌, transposed, map_option,
}
use key_manager.Indexer.Rows.Laws.{IsStable, signed_fits, parsed_back, transposed_back}

pub record FastfsFastData (ids : Ids) : Type 0 where
  pub receipt_id : ids.Hash
  pub action_index : ℕ
  pub tx_hash : Option ids.Hash
  pub signer_id : ids.Account
  pub predecessor_id : ids.Account
  pub current_account_id : ids.Account
  pub block_height : ℕ
  pub block_timestamp : ℕ
  pub shard_id : ℕ
  pub receipt_index : ℕ
  pub mime_type : Option Str
  pub relative_path : Str
  pub content : Option Bytes
  pub offset : ℕ
  pub full_size : ℕ
  pub nonce : ℕ

pub record FastfsFastDataRow : Type 0 where
  pub receipt_id : Str
  pub action_index : ℤ
  pub tx_hash : Option Str
  pub signer_id : Str
  pub predecessor_id : Str
  pub current_account_id : Str
  pub block_height : ℤ
  pub block_timestamp : ℤ
  pub shard_id : ℤ
  pub receipt_index : ℤ
  pub mime_type : Option Str
  pub relative_path : Str
  pub content : Option Bytes
  pub offset : ℤ
  pub full_size : ℤ
  pub nonce : ℤ

module _ (ids : Ids) where
  open ids use {Hash, Account, hash_to_string, hash_parse, account_to_string, account_parse}

  unfoldable pub to_row : FastfsFastData ids → Option FastfsFastDataRow
  unfolding signed
  to_row fastdata = signed i32_max fastdata.action_index >>=? λ action_index.
      signed i64_max fastdata.block_height >>=? λ block_height.
      signed i64_max fastdata.block_timestamp >>=? λ block_timestamp.
      signed i32_max fastdata.shard_id >>=? λ shard_id.
      signed i32_max fastdata.receipt_index >>=? λ receipt_index.
      signed i32_max fastdata.offset >>=? λ offset.
      signed i32_max fastdata.full_size >>=? λ full_size.
      signed i32_max fastdata.nonce >>=? λ nonce. some (record {
        receipt_id = hash_to_string fastdata.receipt_id;
        action_index = action_index;
        tx_hash = map_option hash_to_string fastdata.tx_hash;
        signer_id = account_to_string fastdata.signer_id;
        predecessor_id = account_to_string fastdata.predecessor_id;
        current_account_id = account_to_string fastdata.current_account_id;
        block_height = block_height;
        block_timestamp = block_timestamp;
        shard_id = shard_id;
        receipt_index = receipt_index;
        mime_type = fastdata.mime_type;
        relative_path = fastdata.relative_path;
        content = fastdata.content;
        offset = offset;
        full_size = full_size;
        nonce = nonce;
      })

  unfoldable pub from_row : FastfsFastDataRow → Result (FastfsFastData ids) RowError
  unfolding unsigned parsed transposed
  from_row row = do
    receipt_id ← parsed (codes "receipt_id") hash_parse row.receipt_id
    action_index ← unsigned (codes "action_index") row.action_index
    tx_hash ← transposed (parsed (codes "tx_hash") hash_parse) row.tx_hash
    signer_id ← parsed (codes "signer_id") account_parse row.signer_id
    predecessor_id ← parsed (codes "predecessor_id") account_parse row.predecessor_id
    current_account_id ← parsed (codes "current_account_id") account_parse row.current_account_id
    block_height ← unsigned (codes "block_height") row.block_height
    block_timestamp ← unsigned (codes "block_timestamp") row.block_timestamp
    shard_id ← unsigned (codes "shard_id") row.shard_id
    receipt_index ← unsigned (codes "receipt_index") row.receipt_index
    offset ← unsigned (codes "offset") row.offset
    full_size ← unsigned (codes "full_size") row.full_size
    nonce ← unsigned (codes "nonce") row.nonce
    ok (record {
      receipt_id = receipt_id;
      action_index = action_index;
      tx_hash = tx_hash;
      signer_id = signer_id;
      predecessor_id = predecessor_id;
      current_account_id = current_account_id;
      block_height = block_height;
      block_timestamp = block_timestamp;
      shard_id = shard_id;
      receipt_index = receipt_index;
      mime_type = row.mime_type;
      relative_path = row.relative_path;
      content = row.content;
      offset = offset;
      full_size = full_size;
      nonce = nonce;
    })

  -- Every number fits its column.
  abbrev pub Fits : FastfsFastData ids → Type 0
  Fits fastdata =
      (fastdata.action_index ≤ i32_max)
      × (fastdata.block_height ≤ i64_max)
      × (fastdata.block_timestamp ≤ i64_max)
      × (fastdata.shard_id ≤ i32_max)
      × (fastdata.receipt_index ≤ i32_max)
      × (fastdata.offset ≤ i32_max)
      × (fastdata.full_size ≤ i32_max)
      × (fastdata.nonce ≤ i32_max)

  -- the row of a record whose numbers fit
  row_of : FastfsFastData ids → FastfsFastDataRow
  row_of fastdata = (record {
    receipt_id = hash_to_string fastdata.receipt_id;
    action_index = pos fastdata.action_index;
    tx_hash = map_option hash_to_string fastdata.tx_hash;
    signer_id = account_to_string fastdata.signer_id;
    predecessor_id = account_to_string fastdata.predecessor_id;
    current_account_id = account_to_string fastdata.current_account_id;
    block_height = pos fastdata.block_height;
    block_timestamp = pos fastdata.block_timestamp;
    shard_id = pos fastdata.shard_id;
    receipt_index = pos fastdata.receipt_index;
    mime_type = fastdata.mime_type;
    relative_path = fastdata.relative_path;
    content = fastdata.content;
    offset = pos fastdata.offset;
    full_size = pos fastdata.full_size;
    nonce = pos fastdata.nonce;
  })

  to_row-row_of :
      (fastdata : FastfsFastData ids) → Fits fastdata → to_row fastdata ≡ some (row_of fastdata)
  unfolding to_row row_of
  to_row-row_of fastdata (h0, h1, h2, h3, h4, h5, h6, h7) =
      rw
        (
          signed_fits i32_max fastdata.action_index h0,
          signed_fits i64_max fastdata.block_height h1,
          signed_fits i64_max fastdata.block_timestamp h2,
          signed_fits i32_max fastdata.shard_id h3,
          signed_fits i32_max fastdata.receipt_index h4,
          signed_fits i32_max fastdata.offset h5,
          signed_fits i32_max fastdata.full_size h6,
          signed_fits i32_max fastdata.nonce h7,
        )
        refl

  to_row-Fits :
      (fastdata : FastfsFastData ids) (r : FastfsFastDataRow)
      → to_row fastdata ≡ some r
      → Fits fastdata
  unfolding to_row signed
  to_row-Fits fastdata r h = ground (arith, h)

  module _ (stable : IsStable ids) where
    from_row-row_of : (fastdata : FastfsFastData ids) → from_row (row_of fastdata) ≡ ok fastdata
    unfolding from_row row_of unsigned
    from_row-row_of fastdata =
        rw
          (
            parsed_back (codes "receipt_id") hash_parse _ fastdata.receipt_id
                (stable.hash_parses fastdata.receipt_id),
            transposed_back ids stable (codes "tx_hash") fastdata.tx_hash,
            parsed_back (codes "signer_id") account_parse _ fastdata.signer_id
                (stable.account_parses fastdata.signer_id),
            parsed_back (codes "predecessor_id") account_parse _ fastdata.predecessor_id
                (stable.account_parses fastdata.predecessor_id),
            parsed_back (codes "current_account_id") account_parse _ fastdata.current_account_id
                (stable.account_parses fastdata.current_account_id),
          )
          refl

    -- If near's types are parsed back from their texts: a file's record whose numbers fit is written as
    -- a row from which the same record is read back; any other makes the writer panic.
    pub fastfs_from_row-to_row :
        (fastdata : FastfsFastData ids)
        → ((r : FastfsFastDataRow) × Fits fastdata
            × (to_row fastdata ≡ some r)
            × (from_row r ≡ ok fastdata))
          ⊎ ((Fits fastdata → ⊥) × (to_row fastdata ≡ none))
    fastfs_from_row-to_row fastdata = elim (Option-cases (to_row fastdata)) [
      | inl panics ↦
          inr ((λ fits. absurd (ground (arith, to_row-row_of fastdata fits, panics))), panics)
      | inr (r, there) ↦
          let fits = to_row-Fits fastdata r there in
          inl (row_of fastdata, fits, to_row-row_of fastdata fits, from_row-row_of fastdata)
    ]
