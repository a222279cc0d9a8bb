-- ===== src/Indexer/RedisDb/Tests.antt =====
-- A small Redis, and a write to it.
use key_manager.Base.{
  ◌≡◌, refl, ◌⊎◌, inl, inr, Option, none, some, List, [], ◌∷◌, ok, arith, if◌then◌else◌,
}
use key_manager.Base.Text.{Str, codes, ◌==ₛ◌}
use key_manager.Base.Text.Laws.{==ₛ_refl}
use key_manager.Base.Decimal.{ℤ}
use key_manager.Indexer.RedisDb.{Redis, FastDataKv, stored_entry, add_kv, write_kv}
use key_manager.Indexer.RedisDb.Writes.{IsRedis, IsStored, add_kv-IsStored}

-- The texts, the Scored members and the members of sets, the latest first.
abbrev World : Type 0
World = List (Str × Str) × List (Str × Str × ℤ) × List (Str × Str)

abbrev look_up : List (Str × Str) → Str → Option Str
look_up [] l = none
look_up ((k, v) ∷ m) l = if k ==ₛ l then some v else look_up m l

abbrev Among : {A : Type 0} → A → List A → Type 0
Among x [] = ⊥
Among x (y ∷ ys) = (x ≡ y) ⊎ Among x ys

abbrev small : Redis World Str
small = record {
  connect = λ w. (ok tt, w);
  get = λ k w. (ok (look_up w.0 k), w);
  set = λ k v w. (ok tt, ((k, v) ∷ w.0, w.1, w.2));
  zadd = λ k m s w. (ok tt, (w.0, (k, m, s) ∷ w.1, w.2));
  sadd = λ k m w. (ok tt, (w.0, w.1, (k, m) ∷ w.2));
  fastdata_to_string = λ fd. ok fd.base64;
  stored_to_string = λ e. ok e.value;
}

abbrev value : World → Str → Option Str
value w k = look_up w.0 k

abbrev Scored : World → Str → Str → ℤ → Type 0
Scored w k m s = Among (k, m, s) w.1

abbrev InSet : World → Str → Str → Type 0
InSet w k m = Among (k, m) w.2

small-IsRedis : IsRedis small value Scored InSet
small-IsRedis = record {
  set_value = λ k v w u h. ground (arith, ==ₛ_refl k);
  zadd_scored = λ k m s w u h. inl refl;
  sadd_in_set = λ k m w u h. inl refl;
  zadd_value = λ k m l s w h. refl;
  sadd_value = λ k m l w h. refl;
  sadd_scored = λ k m l n s w h i. i;
  sadd_keeps = λ k m l n w i. inr i;
}

abbrev entry : FastDataKv
entry = record {
  receipt_id = codes "r";
  action_index = 0;
  tx_hash = none;
  signer_id = codes "alice.near";
  predecessor_id = codes "alice.near";
  current_account_id = codes "kv.near";
  block_height = 9;
  block_timestamp = 10;
  shard_id = 1;
  receipt_index = 2;
  order_id = 100002000;
  key = codes "color";
  value = codes "red";
  encrypted_key_id = none;
}

writes : (add_kv small (codes "mainnet") entry ([], [], [])).0 ≡ ok tt
unfolding add_kv write_kv
writes = refl

add_kv-IsStored_example :
    (json : Str) × (small.stored_to_string (stored_entry small (codes "mainnet") entry) ≡ ok json)
    × IsStored small
        (codes "mainnet")
        value
        Scored
        InSet
        small-IsRedis
        entry
        json
        (add_kv small (codes "mainnet") entry ([], [], [])).1
add_kv-IsStored_example =
    add_kv-IsStored small (codes "mainnet") value Scored InSet small-IsRedis entry ([], [], []) tt
      writes
