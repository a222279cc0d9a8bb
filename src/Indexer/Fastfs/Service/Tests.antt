-- ===== src/Indexer/Fastfs/Service/Tests.antt =====
-- The service of file uploads over a list of rows.
use key_manager.Base.{
  ◌≡◌, refl, ◌⊎◌, ◌↔◌, inl, inr, Bool, true, false, ◌&&◌, Option, none, some, List, [], ◌∷◌, Result,
  ok, arith, ◌==◌, ==_iff, and_true, Bool-cases, if◌then◌else◌,
}
use key_manager.Base.Text.{
  Str, Bytes, codes, split, starts_with, ends_with, contains_char, is_ascii, len, ◌==ₛ◌,
}
use key_manager.Base.Text.Laws.{==ₛ_iff, ==ₛ_refl}
use key_manager.Base.Decimal.{ℤ, pos, negsuc}
use key_manager.Indexer.Retry.{retry_with_delays}
use key_manager.Indexer.Rows.{Ids}
use key_manager.Indexer.Rows.Laws.{IsStable}
use key_manager.Indexer.Rows.Blobs.{FastData}
use key_manager.Indexer.Fastfs.{
  FastfsData, partial, PartialFastfs, partial_is_valid, is_valid_relative_path, is_bad_mime_type,
  chunk_end,
}
use key_manager.Indexer.Fastfs.Rows.{FastfsFastDataRow, to_row}
use key_manager.Indexer.Fastfs.Service.{
  stored, partial_entry, fast_data, Database, Loop, continue, handle, handle_fast_data,
  write_with_retries,
}
use key_manager.Indexer.Fastfs.Service.Laws.{StoresFitting, stored-Fits}
use key_manager.Indexer.Fastfs.Service.Steps.{
  PrimaryKey, primary_key, IsTable, done, step, AllStored, Steps-Stores,
}

abbrev text_ids : Ids
text_ids = record {
  Hash = Str;
  Account = Str;
  hash_to_string = λ h. h;
  hash_parse = λ s. some s;
  account_to_string = λ a. a;
  account_parse = λ s. some s;
}

text_ids-IsStable : IsStable text_ids
text_ids-IsStable = record { hash_parses = λ h. refl; account_parses = λ a. refl }

abbrev eq_int : ℤ → ℤ → Bool
eq_int (pos a) (pos b) = a == b
eq_int (negsuc a) (negsuc b) = a == b
eq_int _ _ = false

eq_int_iff : (a b : ℤ) → (eq_int a b ≡ true) ↔ (a ≡ b)
eq_int_iff (pos a) (pos b) = ground (arith, ==_iff a b)
eq_int_iff (pos a) (negsuc b) = ground arith
eq_int_iff (negsuc a) (pos b) = ground arith
eq_int_iff (negsuc a) (negsuc b) = ground (arith, ==_iff a b)

abbrev same_key : PrimaryKey → PrimaryKey → Bool
same_key (p, c, r, n, o) (p', c', r', n', o') =
    p ==ₛ p' && (c ==ₛ c' && (r ==ₛ r' && (eq_int n n' && eq_int o o')))

same_key_refl : (k : PrimaryKey) → same_key k k ≡ true
same_key_refl (p, c, r, n, o) =
    ground
      (arith, ==ₛ_refl p, ==ₛ_refl c, ==ₛ_refl r, (eq_int_iff n n).1 refl, (eq_int_iff o o).1 refl)

same_key_sound : (k l : PrimaryKey) → same_key k l ≡ true → k ≡ l
same_key_sound (p, c, r, n, o) (p', c', r', n', o') h =
    let (ep, h1) = and_true (p ==ₛ p') _ h in
    let (ec, h2) = and_true (c ==ₛ c') _ h1 in
    let (er, h3) = and_true (r ==ₛ r') _ h2 in
    let (en, eo) = and_true (eq_int n n') _ h3 in
    cc (
      (==ₛ_iff p p').0 ep,
      (==ₛ_iff c c').0 ec,
      (==ₛ_iff r r').0 er,
      (eq_int_iff n n').0 en,
      (eq_int_iff o o').0 eo,
    )

-- The rows with the latest first, which hides those with the same key behind it.
abbrev row_at : List FastfsFastDataRow → PrimaryKey → Option FastfsFastDataRow
row_at [] k = none
row_at (row ∷ rows) k = if same_key k (primary_key row) then some row else row_at rows k

abbrev table : Database (List FastfsFastDataRow) Str
table = record {
  insert = λ row w. (ok tt, row ∷ w);
  set_last_processed_block_height = λ height w. (ok tt, w);
}

upserts :
    (row : FastfsFastDataRow) (k : PrimaryKey) (w : List FastfsFastDataRow)
    → (row_at (row ∷ w) k ≡ row_at w k) ⊎ ((k ≡ primary_key row) × (row_at (row ∷ w) k ≡ some row))
upserts row k w = elim (Bool-cases (same_key k (primary_key row))) [
  | inl same ↦ inr (same_key_sound k (primary_key row) same, ground (arith, same))
  | inr differ ↦ inl (ground (arith, differ))
]

table-IsTable : IsTable table row_at
table-IsTable = record {
  inserted = λ row w u h. ground (arith, same_key_refl (primary_key row));
  insert_upserts = upserts;
  set_keeps = λ height k w. refl;
}

abbrev chunk : PartialFastfs
chunk = record {
  relative_path = codes "a";
  offset = 1048576;
  full_size = 1048578;
  mime_type = codes "b";
  content_chunk = 1 ∷ 2 ∷ [];
  nonce = 1;
}

-- any bytes are the chunk
abbrev reads : Bytes → Result FastfsData Str
reads bytes = ok (partial chunk)

abbrev blob : FastData text_ids
blob = record {
  receipt_id = codes "r";
  action_index = 0;
  suffix = codes "fastfs";
  bytes = [];
  tx_hash = some (codes "t");
  signer_id = codes "alice.near";
  predecessor_id = codes "alice.near";
  current_account_id = codes "fs.near";
  block_height = 120000000;
  block_timestamp = 1700000000;
  shard_id = 3;
  receipt_index = 2;
}

stored-Fits_example : StoresFitting text_ids (stored text_ids blob (partial chunk))
stored-Fits_example =
    stored-Fits text_ids blob (partial chunk)
      (omega arith, omega arith, omega arith, omega arith, omega arith)

abbrev fresh : Loop (List FastfsFastDataRow)
fresh = record { is_running = true; consecutive_checkpoint_failures = 0; database = [] }

passes_chunk :
    (next : Loop (List FastfsFastDataRow)) × (handle text_ids [] reads table
        (fast_data blob)
        false
        fresh
      ≡ continue next)
unfolding handle handle_fast_data stored partial_entry partial_is_valid is_valid_relative_path
    is_bad_mime_type chunk_end write_with_retries retry_with_delays to_row split starts_with
    ends_with contains_char is_ascii len ◌==ₛ◌
passes_chunk = (_, refl)

Steps-Stores_example :
    AllStored text_ids [] reads table row_at table-IsTable passes_chunk.0
      ((fast_data blob, false) ∷ [])
Steps-Stores_example =
    Steps-Stores text_ids [] reads table row_at table-IsTable ((fast_data blob, false) ∷ []) fresh
      passes_chunk.0
      (step (fast_data blob) false fresh passes_chunk.0 passes_chunk.0 passes_chunk.1
        (done passes_chunk.0))
