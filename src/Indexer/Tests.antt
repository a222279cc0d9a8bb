-- ===== src/Indexer/Tests.antt =====
-- The indexers at concrete data: small databases that meet the assumptions, and the theorems there.
use key_manager.Base.{ℕ, suc, ◌<◌, ◌≡◌, refl, ◌⊎◌, ◌↔◌, true, some, List, [], ◌∷◌, Result, ok, err}
use key_manager.Base.Text.{Str, codes}
use key_manager.Indexer.Retry.{returned, retry_with_delays}
use key_manager.Indexer.Retry.Laws.{Succeeds, Fails, retry_with_delays_lem}
use key_manager.Indexer.OrderId.{Position, compute_order_id}
use key_manager.Indexer.Rows.{Ids}
use key_manager.Indexer.Rows.Laws.{IsStable}
use key_manager.Indexer.Rows.Blobs
use key_manager.Indexer.Fastfs.{PartialFastfs, is_valid_relative_path, partial_is_valid}
use key_manager.Indexer.Fastfs.Paths.{IsSafePath, is_valid_relative_path_iff}
use key_manager.Indexer.Fastfs.Bounds.{IsChunk, partial_is_valid_iff}

-- An element is among those of a list.
abbrev Among : {A : Type 0} → A → List A → Type 0
Among x [] = ⊥
Among x (y ∷ ys) = (x ≡ y) ⊎ Among x ys

abbrev text_ids : Ids
text_ids = record {
  Hash = Str;
  Account = Str;
  hash_to_string = λ h. h;
  hash_parse = λ s. some s;
  account_to_string = λ a. a;
  account_parse = λ s. some s;
}

text_ids-IsStable : IsStable text_ids
text_ids-IsStable = record { hash_parses = λ h. refl; account_parses = λ a. refl }

-- Retry: an operation that counts its calls and succeeds at the third.
abbrev third : ℕ → Result ℕ Str × ℕ
third n = (elim n [ suc (suc m) ↦ ok 7 | _ ↦ err (codes "down") ], suc n)

abbrev three : List ℕ
three = 1 ∷ 2 ∷ 4 ∷ []

retry_with_delays_lem_example :
    ((three ≡ [])
      × ((retry_with_delays [] third three 0).state ≡ 0)
      × ((retry_with_delays [] third three 0).result ≡ returned (err [])))
    ⊎ (((k : ℕ) × (k < 3) × Succeeds third k 0 (retry_with_delays [] third three 0))
        ⊎ ((k : ℕ) × (3 ≡ suc k) × Fails third k 0 (retry_with_delays [] third three 0)))
retry_with_delays_lem_example = retry_with_delays_lem third [] three 0

retried :
    retry_with_delays [] third three 0
    ≡ record { result = returned (ok 7); state = 3; slept = 2 ∷ 4 ∷ [] }
unfolding retry_with_delays
retried = refl

abbrev at : ℕ → ℕ → ℕ → Position
at s r a = record { receipt_id = codes "r"; shard_id = s; receipt_index = r; action_index = a }

earlier_id : compute_order_id (at 1 2 3) ≡ ok 100002003
unfolding compute_order_id
earlier_id = refl

later_id : compute_order_id (at 1 3 0) ≡ ok 100003000
unfolding compute_order_id
later_id = refl

is_valid_relative_path_iff_example :
    (is_valid_relative_path (codes "a/b.txt") ≡ true) ↔ IsSafePath (codes "a/b.txt")
is_valid_relative_path_iff_example = is_valid_relative_path_iff (codes "a/b.txt")

abbrev chunk : PartialFastfs
chunk = record {
  relative_path = codes "film.mp4";
  offset = 1048576;
  full_size = 1048580;
  mime_type = codes "video/mp4";
  content_chunk = 1 ∷ 2 ∷ 3 ∷ 4 ∷ [];
  nonce = 1;
}

partial_is_valid_iff_example : (partial_is_valid chunk ≡ true) ↔ IsChunk chunk
partial_is_valid_iff_example = partial_is_valid_iff chunk

abbrev blob : Blobs.FastData text_ids
blob = record {
  receipt_id = codes "r";
  action_index = 0;
  suffix = codes "fastfs";
  bytes = [];
  tx_hash = some (codes "t");
  signer_id = codes "alice.near";
  predecessor_id = codes "alice.near";
  current_account_id = codes "fs.near";
  block_height = 120000000;
  block_timestamp = 1700000000;
  shard_id = 3;
  receipt_index = 2;
}
