-- ===== src/Server/RedisDb/Small.antt =====
-- A small Redis that behaves as documented, which the tests of the server share.
use key_manager.Base.{
  ℕ, ◌≤◌, ◌≡◌, refl, sym, ap, ◌∙◌, subst, ◌⊎◌, inl, inr, Bool, true, false, ◌&&◌, Option, none,
  some, List, [], ◌∷◌, ◌++◌, Result, ok, err, arith, if◌then◌else◌, length, take, drop,
  take-length-append, drop-length-append, leb, le→leb, and_true, Option-cases, Bool-cases,
}
use key_manager.Base.Text.{Str, codes, ◌==ₛ◌, starts_with}
use key_manager.Base.Text.Laws.{==ₛ_iff, ==ₛ_refl}
use key_manager.Base.Decimal.{ℤ, pos, negsuc, show_int, parse_i64}
use key_manager.Indexer.RedisDb
use key_manager.Indexer.RedisDb.{Redis}
use key_manager.Indexer.RedisDb.Writes.{IsRedis}
use key_manager.Indexer.RedisDb.Lasts.{IsLasting}
use key_manager.Indexer.Blocks.Stored.{IsKeyed}
use key_manager.Server.RedisDb.{StoredKvEntry, Queries}
use key_manager.Server.RedisDb.Reads.{IsQueries, Among, as_stored}
use key_manager.Server.RedisDb.Timeline.{IsConfined}

-- The texts, the scored members and the members of sets, the latest first.
abbrev pub World : Type 0
World = List (Str × Str) × List (Str × Str × ℤ) × List (Str × Str)

-- Entries as texts: an opening brace, the numbers, then each text behind its length.
abbrev put : Str → Str → Str
put s rest = length s ∷ (s ++ rest)

abbrev cut_off : Str → Str × Str
cut_off [] = ([], [])
cut_off (n ∷ s) = (take n s, drop n s)

cut_off-put : (s rest : Str) → cut_off (put s rest) ≡ (s, rest)
cut_off-put s rest = rw (take-length-append s rest, drop-length-append s rest) refl

abbrev write_entry : RedisDb.StoredKvEntry → Str
write_entry e =
    b'{'
    ∷ e.block_height
    ∷ e.block_timestamp
    ∷ put e.predecessor_id
        (put e.current_account_id (put e.key (put e.value (put e.receipt_id (put e.tx_hash [])))))

abbrev entry_of : ℕ → ℕ → Str → StoredKvEntry
entry_of height timestamp s =
    let (p, s1) = cut_off s in
    let (c, s2) = cut_off s1 in
    let (k, s3) = cut_off s2 in
    let (v, s4) = cut_off s3 in
    let (r, s5) = cut_off s4 in
    let (t, s6) = cut_off s5 in
    record {
      predecessor_id = p;
      current_account_id = c;
      key = k;
      value = v;
      block_height = height;
      block_timestamp = timestamp;
      receipt_id = r;
      tx_hash = t;
    }

abbrev read_entry : Str → Result StoredKvEntry Str
read_entry (brace ∷ height ∷ timestamp ∷ s) = ok (entry_of height timestamp s)
read_entry _ = err (codes "not an entry")

read_entry-write_entry : (e : RedisDb.StoredKvEntry) → read_entry (write_entry e) ≡ ok (as_stored e)
read_entry-write_entry e =
    rw
      (
        take-length-append e.predecessor_id,
        drop-length-append e.predecessor_id,
        take-length-append e.current_account_id,
        drop-length-append e.current_account_id,
        take-length-append e.key,
        drop-length-append e.key,
        take-length-append e.value,
        drop-length-append e.value,
        take-length-append e.receipt_id,
        drop-length-append e.receipt_id,
        take-length-append e.tx_hash,
      )
      refl

abbrev pub look_up : List (Str × Str) → Str → Option Str
look_up [] l = none
look_up ((k, v) ∷ m) l = if k ==ₛ l then some v else look_up m l

abbrev leb_int : ℤ → ℤ → Bool
leb_int (pos a) (pos b) = leb a b
leb_int (pos a) (negsuc b) = false
leb_int (negsuc a) (pos b) = true
leb_int (negsuc a) (negsuc b) = leb b a

abbrev within : Str → ℤ → ℤ → List (Str × Str × ℤ) → List (Str × Str)
within l a b [] = []
within l a b ((k, m, s) ∷ rest) =
    let more = within l a b rest in
    if k ==ₛ l && leb_int a s && leb_int s b then (m, show_int s) ∷ more else more

abbrev members : Str → List (Str × Str) → List Str
members l [] = []
members l ((k, m) ∷ rest) = let more = members l rest in if k ==ₛ l then m ∷ more else more

abbrev keys_from : Str → List (Str × Str) → List Str
keys_from p [] = []
keys_from p ((k, v) ∷ m) = let more = keys_from p m in if starts_with k p then k ∷ more else more

-- A pattern without its last character.
abbrev init : Str → Str
init [] = []
init (c ∷ []) = []
init (c ∷ d ∷ s) = c ∷ init (d ∷ s)

abbrev pub db : Redis World Str
db = record {
  connect = λ w. (ok tt, w);
  get = λ k w. (ok (look_up w.0 k), w);
  set = λ k v w. (ok tt, ((k, v) ∷ w.0, w.1, w.2));
  zadd = λ k m s w. (ok tt, (w.0, (k, m, s) ∷ w.1, w.2));
  sadd = λ k m w. (ok tt, (w.0, w.1, (k, m) ∷ w.2));
  fastdata_to_string = λ fd. ok fd.base64;
  stored_to_string = λ e. ok (write_entry e);
}

abbrev to_int : Str → Result ℤ Str
to_int s = elim (parse_i64 s) [ none ↦ err (codes "not an integer") | some z ↦ ok z ]

abbrev copy : StoredKvEntry → RedisDb.StoredKvEntry
copy e = record {
  predecessor_id = e.predecessor_id;
  current_account_id = e.current_account_id;
  key = e.key;
  value = e.value;
  block_height = e.block_height;
  block_timestamp = e.block_timestamp;
  receipt_id = e.receipt_id;
  tx_hash = e.tx_hash;
}

abbrev pub queries : Queries World Str
queries = record {
  ping = λ w. (ok tt, w);
  scan = λ p n w. (ok (keys_from (init p) w.0), w);
  smembers = λ k w. (ok (members k w.2), w);
  zrangebyscore_withscores = λ k a b w. (ok (within k a b w.1), w);
  int_from_value = to_int;
  stored_from_str = read_entry;
  stored_to_string = λ e. ok (write_entry (copy e));
}

abbrev pub value : World → Str → Option Str
value w k = look_up w.0 k

abbrev pub Scored : World → Str → Str → ℤ → Type 0
Scored w k m s = Among (k, m, s) w.1

abbrev pub InSet : World → Str → Str → Type 0
InSet w k m = Among (k, m) w.2

pub db-IsRedis : IsRedis db value Scored InSet
db-IsRedis = record {
  set_value = λ k v w u h. ground (arith, ==ₛ_refl k);
  zadd_scored = λ k m s w u h. inl refl;
  sadd_in_set = λ k m w u h. inl refl;
  zadd_value = λ k m l s w h. refl;
  sadd_value = λ k m l w h. refl;
  sadd_scored = λ k m l n s w h i. i;
  sadd_keeps = λ k m l n w i. inr i;
}

ok-injective : {A E : Type 0} (a b : A) → let r : Result A E = ok a in r ≡ ok b → a ≡ b
ok-injective a b h = ground (arith, h)

pub db-IsKeyed : IsKeyed db value
db-IsKeyed = record {
  connect_value = λ l w. refl;
  set_value = λ k v w u h. ground (arith, ==ₛ_refl k);
  set_other = λ k v l w apart. elim (Bool-cases (k ==ₛ l)) [
    | inl same ↦ absurd (apart (sym ((==ₛ_iff k l).0 same)))
    | inr differ ↦ ground (arith, differ)
  ];
}

pub db-IsLasting : IsLasting db Scored InSet
db-IsLasting = record {
  connect_scored = λ l n t w i. i;
  connect_in_set = λ l n w i. i;
  set_scored = λ k v l n t w apart i. i;
  set_in_set = λ k v l n w apart i. i;
  zadd_scores = λ k m l n s t w same i. inr i;
  zadd_in_set = λ k m l n s w apart i. i;
  stored_injective = λ d e json h k. ap copy (
      ok-injective (as_stored d) (as_stored e) (
        sym (read_entry-write_entry d)
        ∙ ap read_entry
            (ok-injective (write_entry d) json h ∙ sym (ok-injective (write_entry e) json k))
        ∙ read_entry-write_entry e));
}

if-Among :
    {A : Type 0} (x y : A) (rest : List A) (test : Bool)
    → Among x rest
    → Among x (if test then y ∷ rest else rest)
if-Among x y rest true h = inr h
if-Among x y rest false h = h

Among-if :
    {A : Type 0} (x y : A) (rest : List A) (test : Bool)
    → Among x (if test then y ∷ rest else rest)
    → ((test ≡ true) × (x ≡ y)) ⊎ Among x rest
Among-if x y rest true (inl same) = inl (refl, same)
Among-if x y rest true (inr h) = inr h
Among-if x y rest false h = inr h

within-Among :
    (k m : Str) (a b s : ℕ) (l : List (Str × Str × ℤ))
    → Among (k, m, pos s) l
    → a ≤ s
    → s ≤ b
    → Among (m, show_int (pos s)) (within k (pos a) (pos b) l)
within-Among k m a b s [] h low high = absurd h
within-Among k m a b s (e ∷ l) (inl same) low high =
    subst (λ x. Among (m, show_int (pos s)) (within k (pos a) (pos b) (x ∷ l))) same
      (rw (==ₛ_refl k, le→leb a s low, le→leb s b high) (inl refl))
within-Among k m a b s ((k', m', s') ∷ l) (inr later) low high =
    if-Among _ _ _ (k' ==ₛ k && leb_int (pos a) s' && leb_int s' (pos b))
      (within-Among k m a b s l later low high)

Among-within :
    (k m t : Str) (a b : ℤ) (l : List (Str × Str × ℤ))
    → Among (m, t) (within k a b l)
    → (s : ℤ) × Among (k, m, s) l
Among-within k m t a b [] h = absurd h
Among-within k m t a b ((k', m', s') ∷ l) h =
    elim (Among-if (m, t) (m', show_int s') (within k a b l)
      (k' ==ₛ k && leb_int a s' && leb_int s' b) h) [
        | inr later ↦ let (s, there) = Among-within k m t a b l later in (s, inr there)
        | inl (test, same) ↦ (
          s',
          inl (
              ground (
                arith,
                (==ₛ_iff k' k).0 (and_true (k' ==ₛ k) _ (and_true _ _ test).0).0,
                ap (λ p. p.0) same,
              )),
        )
      ]

to_int-parse_i64 : (s : Str) (z : ℤ) → to_int s ≡ ok z → parse_i64 s ≡ some z
to_int-parse_i64 s z h = elim (Option-cases (parse_i64 s)) [
  | inl none_there ↦ absurd (ground (arith, h, none_there))
  | inr (y, there) ↦ ground (arith, h, there)
]

pub db-IsQueries : IsQueries db queries value Scored
db-IsQueries = record {
  connect_value = λ k w. refl;
  connect_scored = λ k m s w i. i;
  get_value = λ k w found h. sym (ok-injective (look_up w.0 k) found h);
  zrange_scored = λ k m a b s w reply h i low high.
      subst (λ r. Among (m, show_int (pos s)) r)
        (ok-injective (within k (pos a) (pos b) w.1) reply h)
        (within-Among k m a b s w.1 i low high);
  stored_object = λ e json h. (_, sym (ok-injective (write_entry e) json h));
  stored_from_str-stored_to_string = λ e json h.
      ap read_entry (sym (ok-injective (write_entry e) json h)) ∙ read_entry-write_entry e;
  int_decimal = to_int-parse_i64;
}

not_first :
    (k m l n : Str) (t s : ℤ) (rest : List (Str × Str × ℤ))
    → (l ≡ k → ⊥)
    → Among (l, n, s) ((k, m, t) ∷ rest)
    → Among (l, n, s) rest
not_first k m l n t s rest apart (inl same) = absurd (apart (ap (λ p. p.0) same))
not_first k m l n t s rest apart (inr later) = later

pub db-IsConfined : IsConfined db queries Scored
db-IsConfined = record {
  connect_adds = λ l n s w i. i;
  set_adds = λ k v l n s w i. i;
  sadd_adds = λ k m l n s w i. i;
  zadd_adds = λ k m l n t s w apart i. not_first k m l n t s w.1 apart i;
  zrange_only = λ k m t a b w reply h i.
      Among-within k m t a b w.1
        (subst (λ r. Among (m, t) r) (sym (ok-injective (within k a b w.1) reply h)) i);
}
