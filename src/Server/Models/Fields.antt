-- ===== src/Server/Models/Fields.antt =====
-- Which fields a response shows: `fields=` from its text to the JSON of an entry.
use key_manager.Base.{
  ◌≡◌, refl, sym, ap, ◌∙◌, subst, inl, inr, Bool, true, false, ◌&&◌, Option, none, some, List, [],
  ◌∷◌, ◌++◌, map, Result, ok, arith, if◌then◌else◌, is_empty, All, Bool-cases, append_assoc,
  append-nil,
}
use key_manager.Base.Text.{Str, codes, split, ◌==ₛ◌}
use key_manager.Base.Text.Laws.{==ₛ_iff, Lacks, split-append, split-Lacks_self}
use key_manager.Server.Json.{Json, IsMap}
use key_manager.Server.Models.{
  KvEntry, FieldSet, contains, trim, valid_fields, collect_set, unknown_fields, join,
  parse_field_set, insert_if, to_json_with_fields,
}

-- What is true of all names of a list is true of a name that it contains.
pub All-contains {κ} :
    (P : Str → Type κ) (names : List Str) (name : Str)
    → All P names
    → contains names name ≡ true
    → P name
unfolding contains
All-contains P [] name h c = absurd (ground (arith, c))
All-contains P (other ∷ names) name (p, h) c = elim (Bool-cases (other ==ₛ name)) [
  | inl same ↦ subst P ((==ₛ_iff other name).0 same) p
  | inr apart ↦ All-contains P names name h (unfold contains in ground (arith, apart, c))
]

-- A name without a comma, without white space around it, and not empty.
abbrev Plain : Str → Type 0
Plain name = (trim name ≡ name) × Lacks b',' name × (is_empty name ≡ false)

valid_fields-Plain : All Plain valid_fields
unfolding trim
valid_fields-Plain = ground arith

-- `set` holds the names so far; those to come are new.
abbrev pub Fresh : FieldSet → List Str → Type 0
Fresh set [] = Unit
Fresh set (name ∷ names) = (contains set name ≡ false) × Fresh (set ++ name ∷ []) names

collect_set-Fresh :
    (names : List Str) (set : FieldSet)
    → All Plain names
    → Fresh set names
    → collect_set names set ≡ set ++ names
unfolding collect_set
collect_set-Fresh [] set plain fresh = sym (append-nil set)
collect_set-Fresh (name ∷ names) set (p, plain) (new, fresh) =
    rw (p.2, new)
      (collect_set-Fresh names (set ++ name ∷ []) plain fresh ∙ append_assoc set (name ∷ []) names)

unknown_fields-valid :
    (names : List Str)
    → All (λ name. contains valid_fields name ≡ true) names
    → unknown_fields names ≡ []
unfolding unknown_fields
unknown_fields-valid [] h = refl
unknown_fields-valid (name ∷ names) (p, h) = ground (arith, p, unknown_fields-valid names h)

split-join :
    (name : Str) (names : List Str)
    → All Plain (name ∷ names)
    → map trim (split b',' (join (codes ",") (name ∷ names))) ≡ name ∷ names
unfolding join
split-join name [] (p, h) = rw (split-Lacks_self b',' name p.1, p.0) refl
split-join name (other ∷ names) (p, h) =
    rw
      (split-append b',' name (join (codes ",") (other ∷ names)) p.1, p.0, split-join other names h)
      refl

-- Distinct names of fields joined by commas are read back as the set of just these.
pub parse_field_set-join :
    (name : Str) (names : List Str)
    → All (λ n. contains valid_fields n ≡ true) (name ∷ names)
    → Fresh [] (name ∷ names)
    → parse_field_set (some (join (codes ",") (name ∷ names))) ≡ ok (some (name ∷ names))
unfolding parse_field_set
parse_field_set-join name names valid fresh =
    let plain = valid-All-Plain (name ∷ names) valid in
    rw
      (
        split-join name names plain,
        collect_set-Fresh (name ∷ names) [] plain fresh,
        unknown_fields-valid (name ∷ names) valid,
      )
      refl
  where
    valid-All-Plain : (l : List Str) → All (λ n. contains valid_fields n ≡ true) l → All Plain l
    valid-All-Plain [] h = tt
    valid-All-Plain (n ∷ ns) (h, hs) =
        (All-contains Plain valid_fields n valid_fields-Plain h, valid-All-Plain ns hs)

module _ (j : Json) (laws : IsMap j) where
  -- What an entry has under a name: the field of the API that the name stands for, `isDeleted` for
  -- deletions only.
  abbrev pub attribute : KvEntry → Str → Option j.Value
  attribute e l =
      if codes "isDeleted" ==ₛ l && e.is_deleted
      then some (j.boolean true)
      else if codes "txHash" ==ₛ l
      then some (j.text e.tx_hash)
      else if codes "receiptId" ==ₛ l
      then some (j.text e.receipt_id)
      else if codes "blockTimestamp" ==ₛ l
      then some (j.number e.block_timestamp)
      else if codes "blockHeight" ==ₛ l
      then some (j.number e.block_height)
      else if codes "value" ==ₛ l
      then some (j.text e.value)
      else if codes "key" ==ₛ l
      then some (j.text e.key)
      else if codes "contractId" ==ₛ l
      then some (j.text e.current_account_id)
      else if codes "accountId" ==ₛ l
      then some (j.text e.predecessor_id)
      else none

  -- serde's writer of entries yields an object of just these, as its attributes on KvEntry say.
  abbrev pub IsSerializer : (KvEntry → Result j.Value Str) → Type 0
  IsSerializer serialize =
      (e : KvEntry)
      → (m : j.Map) × (serialize e ≡ ok (j.object m)) × ((l : Str) → j.get m l ≡ attribute e l)

  abbrev pub shows : Option FieldSet → Str → Bool
  shows none l = true
  shows (some set) l = contains set l

  get-insert_if :
      (b c : Bool) (k l : Str) (v : j.Value) (m : j.Map) (r : Option j.Value)
      → ((k ==ₛ l) ≡ true → b ≡ c)
      → j.get m l ≡ (if c then r else none)
      → j.get (insert_if j b k v m) l ≡ (if c then (if k ==ₛ l then some v else r) else none)
  get-insert_if b c k l v m r same h =
      let here = Bool-cases (k ==ₛ l) in
      let put = Bool-cases b in
      elim here [
        | inl e ↦ elim put [
          | inl p ↦ ground (arith, e, p, same e, laws.get-insert m k l v)
          | inr p ↦ ground (arith, e, p, same e, h)
        ]
        | inr e ↦ elim put [
          | inl p ↦ ground (arith, e, p, h, laws.get-insert m k l v)
          | inr p ↦ ground (arith, e, p, h)
        ]
      ]

  get-insert_if_and :
      (b c d : Bool) (k l : Str) (v : j.Value) (m : j.Map) (r : Option j.Value)
      → ((k ==ₛ l) ≡ true → b ≡ c)
      → j.get m l ≡ (if c then r else none)
      → j.get (insert_if j (b && d) k v m) l
        ≡ (if c then (if k ==ₛ l && d then some v else r) else none)
  get-insert_if_and b c d k l v m r same h = elim (Bool-cases d) [
    | inl on ↦ rw (on) (ground (arith, get-insert_if b c k l v m r same h))
    | inr off ↦ ground (arith, off, h)
  ]

  -- A set contains a name exactly if it contains one that is equal to it.
  contains-same : (set : FieldSet) (k l : Str) → (k ==ₛ l) ≡ true → contains set k ≡ contains set l
  contains-same set k l h = ap (contains set) ((==ₛ_iff k l).0 h)

  step :
      (set : FieldSet) (l k : Str) (v : j.Value) (m : j.Map) (r : Option j.Value)
      → j.get m l ≡ (if contains set l then r else none)
      → j.get (insert_if j (contains set k) k v m) l
        ≡ (if contains set l then (if k ==ₛ l then some v else r) else none)
  step set l k v m r h =
      get-insert_if (contains set k) (contains set l) k l v m r (contains-same set k l) h

  -- The JSON of an entry shows exactly the fields that are asked for, each with the entry's value, and without `fields=` it shows all of them.
  pub to_json_with_fields-get :
      (serialize : KvEntry → Result j.Value Str)
      → IsSerializer serialize
      → (e : KvEntry) (fields : Option FieldSet)
      → (m : j.Map) × (to_json_with_fields j serialize e fields ≡ j.object m)
        × ((l : Str) → j.get m l ≡ (if shows fields l then attribute e l else none))
  unfolding to_json_with_fields
  to_json_with_fields-get serialize writes e none =
      let (m, whole, at) = writes e in (m, ground (arith, whole), at)
  to_json_with_fields-get serialize writes e (some set) = (
    _,
    refl,
    λ l.
        get-insert_if_and (contains set (codes "isDeleted")) (contains set l) e.is_deleted
          (codes "isDeleted") l (j.boolean true) _ _ (contains-same set (codes "isDeleted") l)
          (step set l (codes "txHash") (j.text e.tx_hash) _ _ (
            step set l (codes "receiptId") (j.text e.receipt_id) _ _ (
              step set l (codes "blockTimestamp") (j.number e.block_timestamp) _ _ (
                step set l (codes "blockHeight") (j.number e.block_height) _ _ (
                  step set l (codes "value") (j.text e.value) _ _ (
                    step set l (codes "key") (j.text e.key) _ _ (
                      step set l (codes "contractId") (j.text e.current_account_id) _ _ (
                        step set l (codes "accountId") (j.text e.predecessor_id) _ _
                          (ground (arith, laws.get-new_map l)))))))))),
  )
