-- ===== src/Indexer/Fastfs/Service/Laws.antt =====
-- What is stored of an upload, over fast data whose heights, times and indexes fit their columns.
use key_manager.Base.{ℕ, ◌≤◌, ◌≡◌, refl, inl, inr, Option, none, some, length, arith, Bool-cases}
use key_manager.Indexer.Rows.{Ids, i32_max, i64_max, map_option}
use key_manager.Indexer.Rows.Blobs.{FastData}
use key_manager.Indexer.Fastfs.{
  FastfsData, simple, partial, FastfsFileContent, simple_is_valid, partial_is_valid,
}
use key_manager.Indexer.Fastfs.Bounds.{simple_is_valid_iff, partial_is_valid_iff, IsContent}
use key_manager.Indexer.Fastfs.Rows.{Fits}
use key_manager.Indexer.Fastfs.Service.{
  content_size, simple_entry, partial_entry, Stored, skipped, entry, too_long, stored,
}

module _ (ids : Ids) where
  -- The numbers that come from the chain fit their columns.
  abbrev pub OriginFits : FastData ids → Type 0
  OriginFits fastdata =
      (fastdata.action_index ≤ i32_max)
      × (fastdata.block_height ≤ i64_max)
      × (fastdata.block_timestamp ≤ i64_max)
      × (fastdata.shard_id ≤ i32_max)
      × (fastdata.receipt_index ≤ i32_max)

  -- The entry that an accepted upload is stored as has numbers that fit.
  abbrev pub StoresFitting : Stored ids → Type 0
  StoresFitting skipped = Unit
  StoresFitting (entry e) = Fits ids e
  StoresFitting too_long = ⊥

  content_size_lem :
      (o : Option FastfsFileContent)
      → IsContent o
      → (n : ℕ) × (content_size ids (map_option (λ c. c.content) o) ≡ some n) × (n ≤ i32_max)
  unfolding content_size
  content_size_lem none h = (0, refl, omega arith)
  content_size_lem (some c) (m, h) = (length c.content, ground (arith, h), omega (arith, h))

  -- An upload whose numbers from the chain fit their columns is skipped or stored as an entry all
  -- of whose numbers fit: no accepted upload makes a conversion panic.
  pub stored-Fits :
      (fastdata : FastData ids) (value : FastfsData)
      → OriginFits fastdata
      → StoresFitting (stored ids fastdata value)
  unfolding stored simple_entry partial_entry
  stored-Fits fastdata (simple s) (a, h, t, d, r) = elim (Bool-cases (simple_is_valid s)) [
    | inl valid ↦
        let (n, size, small) = content_size_lem s.content ((simple_is_valid_iff s).0 valid).1 in
        rw (valid, size) (a, h, t, d, r, omega arith, small, omega arith)
    | inr invalid ↦ rw invalid tt
  ]
  stored-Fits fastdata (partial p) (a, h, t, d, r) = elim (Bool-cases (partial_is_valid p)) [
    | inl valid ↦
        let (path, al, pos, full, mime, chunk, off, fits, n, m) =
          (partial_is_valid_iff p).0 valid in
        rw valid (a, h, t, d, r, omega (arith, off), omega (arith, full), omega (arith, m))
    | inr invalid ↦ rw invalid tt
  ]
