-- ===== src/Server/Models.antt =====
-- The entries, pages and fields of fastkv-server/src/models.rs.
pub mod Params
pub mod Fields
pub mod Replies
mod Tests
use key_manager.Base.{
  ℕ, ◌+◌, Bool, true, false, ◌&&◌, ◌||◌, not, Option, none, some, List, [], ◌∷◌, ◌++◌, map, reverse,
  Result, ok, err, ltb, leb, ◌==◌, if◌then◌else◌, is_empty, any, min,
}
use key_manager.Base.Text.{Str, codes, split, ◌==ₛ◌}
use key_manager.Base.Decimal.{ℤ, pos, negsuc}
use key_manager.Server.Errors.{ApiError}
use key_manager.Server.Json.{Json}

pub record KvEntry : Type 0 where
  pub predecessor_id : Str
  pub current_account_id : Str
  pub key : Str
  pub value : Str
  pub block_height : ℕ
  pub block_timestamp : ℕ
  pub receipt_id : Str
  pub tx_hash : Str
  pub is_deleted : Bool

pub record PaginationMeta : Type 0 where
  pub has_more : Bool
  pub truncated : Bool
  pub next_cursor : Option Str
  pub dropped_rows : Option ℕ

-- A set of names. The order in which a `HashSet` yields its members is not specified; here it is
-- the order in which they were put in.
abbrev pub FieldSet : Type 0
FieldSet = List Str

unfoldable pub contains : List Str → Str → Bool
contains names name = any (λ other. other ==ₛ name) names

-- `char::is_whitespace` and `str::trim`
abbrev is_whitespace : ℕ → Bool
is_whitespace c =
    (leb 9 c && leb c 13)
    || c == 0x20
    || c == 0x85
    || c == 0xa0
    || c == 0x1680
    || (leb 0x2000 c && leb c 0x200a)
    || c == 0x2028
    || c == 0x2029
    || c == 0x202f
    || c == 0x205f
    || c == 0x3000

unfoldable pub trim_start : Str → Str
trim_start [] = []
trim_start (c ∷ s) = let rest = trim_start s in if is_whitespace c then rest else c ∷ s

unfoldable pub trim : Str → Str
unfolding trim_start
trim s = reverse (trim_start (reverse (trim_start s)))

abbrev pub valid_fields : List Str
valid_fields =
    codes "accountId"
    ∷ codes "contractId"
    ∷ codes "key"
    ∷ codes "value"
    ∷ codes "blockHeight"
    ∷ codes "blockTimestamp"
    ∷ codes "receiptId"
    ∷ codes "txHash"
    ∷ codes "isDeleted"
    ∷ []

-- `.filter(|s| !s.is_empty()).collect::<HashSet<_>>()` of the pieces
unfoldable pub collect_set : List Str → FieldSet → FieldSet
unfolding contains
collect_set [] set = set
collect_set (name ∷ names) set =
    collect_set names (if is_empty name || contains set name then set else set ++ name ∷ [])

-- `.filter(|s| !VALID_FIELDS.contains(s))`
unfoldable pub unknown_fields : FieldSet → List Str
unfolding contains
unknown_fields [] = []
unknown_fields (name ∷ set) =
    let rest = unknown_fields set in if contains valid_fields name then rest else name ∷ rest

unfoldable pub join : Str → List Str → Str
join sep [] = []
join sep (s ∷ []) = s
join sep (s ∷ t ∷ ts) = s ++ (sep ++ join sep (t ∷ ts))

unfoldable pub parse_field_set : Option Str → Result (Option FieldSet) ApiError
unfolding trim collect_set unknown_fields join
parse_field_set none = ok none
parse_field_set (some f) =
    let set = collect_set (map trim (split b',' f)) [] in
    let invalid = unknown_fields set in
    if is_empty invalid
    then ok (if is_empty set then none else some set)
    else err (
        ApiError.invalid_parameter (
          codes "fields: unknown field(s): "
          ++ (join (codes ", ") invalid ++ (codes ". Valid: " ++ join (codes ", ") valid_fields))))

-- Convert a bigint (i64) to u64, clamping negatives to 0.
unfoldable pub bigint_to_u64 : ℤ → ℕ
bigint_to_u64 (pos n) = n
bigint_to_u64 (negsuc n) = 0

unfoldable pub dropped_to_option : ℕ → Option ℕ
dropped_to_option n = if ltb 0 n then some (min n 4294967295) else none

unfoldable pub should_decode : Option Str → Result Bool ApiError
should_decode none = ok false
should_decode (some other) =
    if other ==ₛ codes "json"
    then ok true
    else if other ==ₛ codes "raw"
    then ok false
    else err (
        ApiError.invalid_parameter
          (codes "value_format: must be 'json' or 'raw' (got '" ++ (other ++ codes "')")))

module _ (j : Json) where
  -- `if test { map.insert(name, value) }`
  abbrev pub insert_if : Bool → Str → j.Value → j.Map → j.Map
  insert_if test name value m = if test then j.insert m name value else m

  -- The fields of an entry that a set names. `serialize` is what serde derives for a KvEntry.
  unfoldable pub to_json_with_fields :
      (KvEntry → Result j.Value Str) → KvEntry → Option FieldSet → j.Value
  unfolding contains
  to_json_with_fields serialize e none = elim (serialize e) [ ok v ↦ v | err why ↦ j.null ]
  to_json_with_fields serialize e (some set) =
      let m = j.new_map in
      let m =
        insert_if (contains set (codes "accountId")) (codes "accountId") (j.text e.predecessor_id)
          m in
      let m =
        insert_if (contains set (codes "contractId")) (codes "contractId")
          (j.text e.current_account_id) m in
      let m = insert_if (contains set (codes "key")) (codes "key") (j.text e.key) m in
      let m = insert_if (contains set (codes "value")) (codes "value") (j.text e.value) m in
      let m =
        insert_if (contains set (codes "blockHeight")) (codes "blockHeight")
          (j.number e.block_height) m in
      let m =
        insert_if (contains set (codes "blockTimestamp")) (codes "blockTimestamp")
          (j.number e.block_timestamp) m in
      let m =
        insert_if (contains set (codes "receiptId")) (codes "receiptId") (j.text e.receipt_id) m in
      let m = insert_if (contains set (codes "txHash")) (codes "txHash") (j.text e.tx_hash) m in
      let m =
        insert_if (contains set (codes "isDeleted") && e.is_deleted) (codes "isDeleted")
          (j.boolean true) m in
      j.object m

  -- `decode_value_in_json` of handlers.rs: a text under "value" that is JSON is replaced by it.
  unfoldable pub decode_value_in_json : j.Value → j.Value
  decode_value_in_json json = elim (j.as_object json) [
    | none ↦ json
    | some m ↦ elim (j.get m (codes "value")) [
      | none ↦ json
      | some v ↦ elim (j.as_str v) [
        | none ↦ json
        | some raw ↦ elim (j.from_str raw) [
          | err why ↦ json
          | ok decoded ↦ j.object (j.insert m (codes "value") decoded)
        ]
      ]
    ]
  ]
