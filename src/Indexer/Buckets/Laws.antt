-- ===== src/Indexer/Buckets/Laws.antt =====
-- No bucket of the range is left out.
use key_manager.Base.{
  ℕ, zero, suc, ◌+◌, ◌-◌, ◌/◌, ◌<◌, ◌≤◌, ◌≡◌, refl, sym, ap, ◌∙◌, some, List, [], ◌∷◌, ◌++◌,
  append_assoc, map, Result, ok, arith,
}
use key_manager.Base.Text.{Str}
use key_manager.Indexer.Rows.{Ids, i64_max}
use key_manager.Indexer.Rows.Blobs.{FastData, FastDataRow}
use key_manager.Indexer.Buckets.{FetchError, buckets, convert, bucket_streams, get_suffix_data}

module _ (ids : Ids) {E : Type 0} (blobs : Str → ℕ → ℕ → ℕ → List (Result FastDataRow E))
    (suffix : Str) (from to : ℕ) where
  abbrev answers : Str → ℕ → ℕ → ℕ → Result (List (Result FastDataRow E)) E
  answers s bucket low high = ok (blobs s bucket low high)

  -- what the query for a bucket yields
  abbrev rows_of : ℕ → List (Result FastDataRow E)
  rows_of bucket = blobs suffix bucket from to

  -- the rows of the buckets, one after the other
  abbrev all_rows : List ℕ → List (Result (FastData ids) (FetchError E))
  all_rows [] = []
  all_rows (b ∷ bs) = map (convert ids answers) (rows_of b) ++ all_rows bs

  streams_all :
      (count bucket : ℕ)
      → from ≤ i64_max
      → to ≤ i64_max
      → bucket + count ≤ i64_max + 1
      → bucket_streams ids answers suffix from to (buckets count bucket)
        ≡ some (ok (all_rows (buckets count bucket)))
  unfolding bucket_streams
  streams_all zero bucket hf ht hb = refl
  streams_all (suc count) bucket hf ht hb =
      ground (arith, hf, ht, hb, streams_all count (bucket + 1) hf ht (omega (arith, hb)))

  holds :
      (count bucket k : ℕ)
      → k < count
      → (before : List (Result (FastData ids) (FetchError E))) × (behind : List
          (Result (FastData ids) (FetchError E)))
        × (all_rows (buckets count bucket)
            ≡ before ++ (map (convert ids answers) (rows_of (bucket + k)) ++ behind))
  holds zero bucket k h = absurd (omega (arith, h))
  holds (suc count) bucket zero h =
      let here : bucket ≡ bucket + 0 = omega arith in
      (
        [],
        all_rows (buckets count (bucket + 1)),
        ap (λ b. map (convert ids answers) (rows_of b) ++ all_rows (buckets count (bucket + 1)))
            here,
      )
  holds (suc count) bucket (suc k) h =
      let there : bucket + 1 + k ≡ bucket + suc k = omega arith in
      let (before, behind, e) = holds count (bucket + 1) k (omega (arith, h)) in
      (
        map (convert ids answers) (rows_of bucket) ++ before,
        behind,
        ap (λ t. map (convert ids answers) (rows_of bucket) ++ t) e
            ∙ sym (append_assoc (map (convert ids answers) (rows_of bucket)) before _)
            ∙ ap
                (λ b.
                  (map (convert ids answers) (rows_of bucket) ++ before)
                  ++ (map (convert ids answers) (rows_of b) ++ behind))
                there,
      )

  in_span :
      to / 10_000 - from / 10_000 ≤ 1_000
      → get_suffix_data ids answers suffix from to
        ≡ bucket_streams ids answers suffix from to
            (buckets (suc (to / 10_000) - from / 10_000) (from / 10_000))
  unfolding get_suffix_data
  in_span h = ground (arith, h)

  same_bucket :
      (height : ℕ)
      → from ≤ height
      → from / 10_000 + (height / 10_000 - from / 10_000) ≡ height / 10_000
  same_bucket height h = omega arith

  -- For a range of heights that fits i64 and spans at most 1,000 buckets beyond its first, over a
  -- database that answers: the stream holds, in one piece, all rows that the query for the suffix, the range and the bucket of
  -- any height of the range yields, and no query's error.
  pub get_suffix_data_lem :
      (height : ℕ)
      → from ≤ height
      → height ≤ to
      → to ≤ i64_max
      → to / 10_000 - from / 10_000 ≤ 1_000
      → (before : List (Result (FastData ids) (FetchError E))) × (behind : List
          (Result (FastData ids) (FetchError E)))
        × (get_suffix_data ids answers suffix from to
            ≡ some
                (ok (before ++ (map (convert ids answers) (rows_of (height / 10_000)) ++ behind))))
  get_suffix_data_lem height hf ht hi span =
      let first = from / 10_000 in
      let count = suc (to / 10_000) - first in
      let k = height / 10_000 - first in
      let (before, behind, e) = holds count first k (omega (arith, hf, ht)) in
      (
        before,
        behind,
        in_span span
            ∙ streams_all count first (omega (arith, hf, ht, hi)) hi (omega (arith, hf, ht, hi))
            ∙ ap (λ rows. some (ok rows)) e
            ∙ ap (λ b. some (ok (before ++ (map (convert ids answers) (rows_of b) ++ behind))))
                (same_bucket height hf),
      )
