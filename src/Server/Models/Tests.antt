-- ===== src/Server/Models/Tests.antt =====
-- Fields of an entry over the small JSON.
use key_manager.Base.{
  ◌≡◌, refl, inl, inr, Bool, true, false, none, some, [], ◌∷◌, ok, arith, Bool-cases, if◌then◌else◌,
  All,
}
use key_manager.Base.Text.{Str, codes, ◌==ₛ◌}
use key_manager.Server.Json.Small.{
  Entries, nothing, entry, nat, string, flag, node, look_up, small, small-IsMap,
}
use key_manager.Server.Models.{
  KvEntry, contains, valid_fields, join, parse_field_set, to_json_with_fields,
}
use key_manager.Server.Models.Fields.{
  Fresh, attribute, shows, IsSerializer, parse_field_set-join, to_json_with_fields-get,
}

fields_valid : All (λ n. contains valid_fields n ≡ true) (codes "value" ∷ codes "blockHeight" ∷ [])
unfolding contains ◌==ₛ◌
fields_valid = (refl, (refl, tt))

fields-Fresh : Fresh [] (codes "value" ∷ codes "blockHeight" ∷ [])
unfolding contains ◌==ₛ◌
fields-Fresh = (refl, (refl, tt))

parse_field_set-join_example :
    parse_field_set (some (join (codes ",") (codes "value" ∷ codes "blockHeight" ∷ [])))
    ≡ ok (some (codes "value" ∷ codes "blockHeight" ∷ []))
parse_field_set-join_example =
    parse_field_set-join (codes "value") (codes "blockHeight" ∷ []) fields_valid fields-Fresh

abbrev with_deletion : Bool → Entries → Entries
with_deletion true m = entry (codes "isDeleted") (flag true) m
with_deletion false m = m

abbrev write : KvEntry → Entries
write e = with_deletion e.is_deleted (
    entry (codes "txHash") (string e.tx_hash) (
      entry (codes "receiptId") (string e.receipt_id) (
        entry (codes "blockTimestamp") (nat e.block_timestamp) (
          entry (codes "blockHeight") (nat e.block_height) (
            entry (codes "value") (string e.value) (
              entry (codes "key") (string e.key) (
                entry (codes "contractId") (string e.current_account_id)
                  (entry (codes "accountId") (string e.predecessor_id) nothing))))))))

write-IsSerializer : IsSerializer small small-IsMap (λ e. ok (node (write e)))
write-IsSerializer e = (
  write e,
  refl,
  λ l. elim (Bool-cases e.is_deleted) [
    | inl on ↦ rw (on) (ground arith)
    | inr off ↦ rw (off) (ground arith)
  ],
)

abbrev red : KvEntry
red = record {
  predecessor_id = codes "alice.near";
  current_account_id = codes "kv.near";
  key = codes "color";
  value = codes "red";
  block_height = 9;
  block_timestamp = 10;
  receipt_id = codes "r";
  tx_hash = codes "t";
  is_deleted = false;
}

to_json_with_fields-get_example :
    (m : Entries) × (to_json_with_fields small
        (λ e. ok (node (write e)))
        red
        (some (codes "value" ∷ codes "key" ∷ []))
      ≡ node m)
    × ((l : Str)
        → look_up m l ≡ (
            if shows small small-IsMap (some (codes "value" ∷ codes "key" ∷ [])) l
            then attribute small small-IsMap red l
            else none))
to_json_with_fields-get_example =
    to_json_with_fields-get small small-IsMap (λ e. ok (node (write e))) write-IsSerializer red
      (some (codes "value" ∷ codes "key" ∷ []))
