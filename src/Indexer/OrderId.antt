-- ===== src/Indexer/OrderId.antt =====
-- `compute_order_id` of fastdata-indexer/scylladb/src/utils.rs, and of
-- fastdata-indexer/kv-sub-indexer/src/main.rs, which has no guard. The sums are on u64.
pub mod Laws
use key_manager.Base.{ℕ, ◌+◌, ◌*◌, ◌%◌, Result, ok, err, ◌||◌, ◌++◌, leb, if◌then◌else◌}
use key_manager.Base.Text.{Str, codes}
use key_manager.Base.Decimal.{show}

-- What the order id reads of a `FastData`.
pub record Position : Type 0 where
  pub receipt_id : Str
  pub shard_id : ℕ
  pub receipt_index : ℕ
  pub action_index : ℕ

-- `((shard_id as u64) * 100_000 + receipt_index as u64) * 1_000 + action_index as u64`
unfoldable pub encode : ℕ → ℕ → ℕ → ℕ
encode shard_id receipt_index action_index =
    (((shard_id * 100_000 % 18446744073709551616 + receipt_index) % 18446744073709551616)
        * 1_000
        % 18446744073709551616
      + action_index)
    % 18446744073709551616

unfoldable pub compute_order_id : Position → Result ℕ Str
unfolding encode
compute_order_id fd =
    if leb 100_000 fd.receipt_index || leb 1_000 fd.action_index
    then err (
        codes "order_id encoding overflow: receipt_index="
        ++ (show fd.receipt_index
            ++ (codes ", action_index="
                ++ (show fd.action_index
                    ++ (codes " for receipt "
                        ++ (fd.receipt_id
                            ++ codes " (max receipt_index=99999, max action_index=999)"))))))
    else ok (encode fd.shard_id fd.receipt_index fd.action_index)

unfoldable pub compute_order_id_unchecked : Position → ℕ
unfolding encode
compute_order_id_unchecked fastdata =
    encode fastdata.shard_id fastdata.receipt_index fastdata.action_index
