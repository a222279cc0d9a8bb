-- ===== src/Indexer/Kv/Entries.antt =====
-- Which items of the data become entries.
use key_manager.Base.{
  ℕ, ◌≤◌, ◌<◌, ◌≡◌, ◌≢◌, refl, sym, ap, ◌∙◌, ◌⊎◌, inl, inr, ◌↔◌, true, false, ◌||◌, Option, none,
  some, List, [], ◌∷◌, ◌++◌, length, ltb, any, is_empty, All, arith, Bool-cases, Option-cases,
  append_assoc,
}
use key_manager.Base.Text.{Str, codes, len, is_control, strip_prefix, split_once}
use key_manager.Base.Text.Laws.{Lacks, strip_prefix-append, split_once-append}
use key_manager.Indexer.RedisDb.{FastData, FastDataKv}
use key_manager.Indexer.Kv.{
  Decoding, trim_start, trim_end, detect_encrypted, kv_entry, item_entries, parse_kv_entries,
}

-- A key that the indexer stores.
abbrev pub IsKey : Str → Type 0
IsKey key = (key ≢ []) × (len key ≤ 1024) × All (λ c. is_control c ≡ false) key

-- The entries are those of the items whose key is one and whose value can be written, in order.
pub data Entries (d : Decoding) (fastdata : FastData)
    : List (Str × d.Value) → List FastDataKv → Type 0 where
  nothing : Entries d fastdata [] []
  taken :
      (key : Str) (value : d.Value) (text : Str) {items : List (Str × d.Value)}
      {entries : List FastDataKv}
      → IsKey key
      → d.to_string value ≡ some text
      → Entries d fastdata items entries
      → Entries d fastdata ((key, value) ∷ items) (kv_entry fastdata key text ∷ entries)
  left_out :
      (key : Str) (value : d.Value) {items : List (Str × d.Value)} {entries : List FastDataKv}
      → (IsKey key → ⊥) ⊎ (d.to_string value ≡ none)
      → Entries d fastdata items entries
      → Entries d fastdata ((key, value) ∷ items) entries

any-false : (key : Str) → (any is_control key ≡ false) ↔ All (λ c. is_control c ≡ false) key
any-false [] = ((λ _. tt), λ _. refl)
any-false (c ∷ key) = (
  (λ h. (ground (arith, h), (any-false key).0 (ground (arith, h)))),
  λ (h, hs). ground (arith, h, (any-false key).1 hs),
)

IsKey-iff :
    (key : Str) → ((ltb 1024 (len key) || (is_empty key || any is_control key)) ≡ false) ↔ IsKey key
IsKey-iff [] = ground arith
IsKey-iff (c ∷ key) = (
  (λ h. (cc, ground (arith, h), (any-false (c ∷ key)).0 (ground (arith, h)))),
  λ (_, l, p). ground (arith, l, (any-false (c ∷ key)).1 p),
)

module _ (d : Decoding) (fastdata : FastData) where
  skips :
      (key : Str) (value : d.Value) (items : List (Str × d.Value))
      → (ltb 1024 (len key) || (is_empty key || any is_control key)) ≡ true
      → item_entries d fastdata ((key, value) ∷ items) ≡ item_entries d fastdata items
  unfolding item_entries
  skips key value items h = ground (arith, h)

  skips_value :
      (key : Str) (value : d.Value) (items : List (Str × d.Value))
      → d.to_string value ≡ none
      → item_entries d fastdata ((key, value) ∷ items) ≡ item_entries d fastdata items
  unfolding item_entries
  skips_value key value items h = ground (arith, h)

  takes :
      (key : Str) (value : d.Value) (text : Str) (items : List (Str × d.Value))
      → (ltb 1024 (len key) || (is_empty key || any is_control key)) ≡ false
      → d.to_string value ≡ some text
      → item_entries d fastdata ((key, value) ∷ items)
        ≡ kv_entry fastdata key text ∷ item_entries d fastdata items
  unfolding item_entries
  takes key value text items h e = ground (arith, h, e)

  item_entries-Entries :
      (items : List (Str × d.Value)) → Entries d fastdata items (item_entries d fastdata items)
  item_entries-Entries [] = unfold item_entries in nothing
  item_entries-Entries ((key, value) ∷ items) =
      elim (Bool-cases (ltb 1024 (len key) || (is_empty key || any is_control key))) [
        | inl bad ↦ rw (skips key value items bad) (
            left_out key value (inl (λ k. absurd (ground (arith, bad, (IsKey-iff key).1 k))))
              (item_entries-Entries items))
        | inr good ↦ elim (Option-cases (d.to_string value)) [
          | inl unwritable ↦
              rw (skips_value key value items unwritable)
                (left_out key value (inr unwritable) (item_entries-Entries items))
          | inr (text, e) ↦
              rw (takes key value text items good e)
                (taken key value text ((IsKey-iff key).0 good) e (item_entries-Entries items))
        ]
      ]

  -- The items of the object that the fast data is.
  abbrev pub object : Option (List (Str × d.Value))
  object = elim (d.base64_decode fastdata.base64) [
    | none ↦ none
    | some bytes ↦ elim (d.from_slice bytes) [ none ↦ none | some json ↦ d.as_object json ]
  ]

  parse_none : object ≡ none → parse_kv_entries d fastdata ≡ []
  unfolding parse_kv_entries
  parse_none h = ground (arith, h)

  parse_too_many :
      (items : List (Str × d.Value))
      → object ≡ some items
      → ltb 256 (length items) ≡ true
      → parse_kv_entries d fastdata ≡ []
  unfolding parse_kv_entries
  parse_too_many items h l = ground (arith, h, l)

  parse_some :
      (items : List (Str × d.Value))
      → object ≡ some items
      → ltb 256 (length items) ≡ false
      → parse_kv_entries d fastdata ≡ item_entries d fastdata items
  unfolding parse_kv_entries
  parse_some items h l = ground (arith, h, l)

  -- Fast data that is not base64 of a JSON object, or of one with more than 256 keys, gives no
  -- entry. Any other gives, in the object's order, one entry for each item whose key is nonempty,
  -- at most 1024 bytes long and free of control characters and whose value can be written, and no
  -- other.
  pub parse_kv_entries-Entries :
      ((object ≡ none) × (parse_kv_entries d fastdata ≡ []))
      ⊎ ((items : List (Str × d.Value)) × (object ≡ some items)
          × (((256 < length items) × (parse_kv_entries d fastdata ≡ []))
              ⊎ ((length items ≤ 256) × Entries d fastdata items (parse_kv_entries d fastdata))))
  parse_kv_entries-Entries = elim (Option-cases object) [
    | inl h ↦ inl (h, parse_none h)
    | inr (items, h) ↦ inr (
      items,
      h,
      elim (Bool-cases (ltb 256 (length items))) [
        | inl many ↦ inl (ground (arith, many), parse_too_many items h many)
        | inr few ↦
            inr (ground (arith, few), rw (parse_some items h few) (item_entries-Entries items))
      ],
    )
  ]

not_empty : (a : Str) (c : ℕ) (r : Str) → is_empty (a ++ c ∷ r) ≡ false
not_empty [] c r = refl
not_empty (x ∷ a) c r = refl

-- a text that is cut at its end keeps a colon and what is before it
trim_end-colon : (a r : Str) → trim_end (a ++ b':' ∷ r) ≡ a ++ b':' ∷ trim_end r
unfolding trim_end
trim_end-colon [] r = ground arith
trim_end-colon (c ∷ a) r = ground (arith, trim_end-colon a r, not_empty a b':' (trim_end r))

trim_end-colon_behind :
    (p a r : Str) → trim_end (p ++ (a ++ b':' ∷ r)) ≡ p ++ (a ++ b':' ∷ trim_end r)
trim_end-colon_behind p a r =
    ap trim_end (sym (append_assoc p a (b':' ∷ r)))
    ∙ trim_end-colon (p ++ a) r
    ∙ append_assoc p a (b':' ∷ trim_end r)

detected :
    (value rest key_id tail : Str)
    → strip_prefix (trim_end (trim_start value)) (codes "enc:AES256:") ≡ some rest
    → split_once b':' rest ≡ some (key_id, tail)
    → detect_encrypted value ≡ some key_id
unfolding detect_encrypted
detected value rest key_id tail h k = ground (arith, h, k)

trim_start-quote :
    (r : Str) → trim_start (b'"' ∷ (codes "enc:AES256:" ++ r)) ≡ codes "enc:AES256:" ++ r
unfolding trim_start
trim_start-quote r = refl

-- A JSON text `enc:AES256:<key id>:…` is recognized, whatever follows the second colon, and its key
-- id is the text between the colons.
pub detect_encrypted_lem :
    (key_id r : Str)
    → Lacks b':' key_id
    → detect_encrypted (b'"' ∷ (codes "enc:AES256:" ++ (key_id ++ b':' ∷ r))) ≡ some key_id
detect_encrypted_lem key_id r h =
    detected _ (key_id ++ b':' ∷ trim_end r) key_id (trim_end r)
      (ap (λ t. strip_prefix t (codes "enc:AES256:"))
          (ap trim_end (trim_start-quote (key_id ++ b':' ∷ r))
            ∙ trim_end-colon_behind (codes "enc:AES256:") key_id r)
        ∙ strip_prefix-append (codes "enc:AES256:") (key_id ++ b':' ∷ trim_end r))
      (split_once-append b':' key_id (trim_end r) h)
