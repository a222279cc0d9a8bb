-- ===== src/Indexer/OrderId/Laws.antt =====
-- Order ids order the actions of a block.
use key_manager.Base.{ℕ, ◌+◌, ◌*◌, ◌<◌, ◌≡◌, ◌↔◌, ◌⊎◌, ok, arith}
use key_manager.Indexer.OrderId.{Position, encode, compute_order_id, compute_order_id_unchecked}

-- The fields are u32.
abbrev pub IsU32 : Position → Type 0
IsU32 p = (p.shard_id < 4294967296) × (p.receipt_index < 4294967296) × (p.action_index < 4294967296)

-- First by shard, then by receipt, then by action.
abbrev pub Before : Position → Position → Type 0
Before p q =
    (p.shard_id < q.shard_id)
    ⊎ ((p.shard_id ≡ q.shard_id)
        × ((p.receipt_index < q.receipt_index)
            ⊎ ((p.receipt_index ≡ q.receipt_index) × (p.action_index < q.action_index))))

encode_exact :
    (s r a : ℕ)
    → s < 4294967296
    → r < 4294967296
    → a < 4294967296
    → encode s r a ≡ (s * 100_000 + r) * 1_000 + a
unfolding encode
encode_exact s r a hs hr ha = omega arith

accepted :
    (p : Position) (id : ℕ)
    → IsU32 p
    → compute_order_id p ≡ ok id
    → (p.receipt_index < 100_000)
      × (p.action_index < 1_000)
      × (id ≡ (p.shard_id * 100_000 + p.receipt_index) * 1_000 + p.action_index)
unfolding compute_order_id
accepted p id (hs, hr, ha) h =
    ground (arith, encode_exact p.shard_id p.receipt_index p.action_index hs hr ha)

lexicographic :
    (s t r u a b : ℕ)
    → r < 100_000
    → u < 100_000
    → a < 1_000
    → b < 1_000
    → (s * 100_000 + r) * 1_000 + a < (t * 100_000 + u) * 1_000 + b
    → (s < t) ⊎ ((s ≡ t) × ((r < u) ⊎ ((r ≡ u) × (a < b))))
lexicographic s t r u a b hr hu ha hb h = omega arith

-- If the fields of two actions fit u32 and both are given an id, the ids compare the way the actions
-- do: by shard, then by receipt, then by action.
pub compute_order_id-Before :
    (p q : Position) (i j : ℕ)
    → IsU32 p
    → IsU32 q
    → compute_order_id p ≡ ok i
    → compute_order_id q ≡ ok j
    → (i < j) ↔ Before p q
compute_order_id-Before p q i j hp hq ep eq =
    let (rp, ap', ip) = accepted p i hp ep in
    let (rq, aq, iq) = accepted q j hq eq in
    (
      (λ h.
          lexicographic p.shard_id q.shard_id p.receipt_index q.receipt_index p.action_index
            q.action_index rp rq ap' aq (omega (arith, ip, iq))),
      λ b. omega (arith, ip, iq, b),
    )

-- Where the guard passes the unchecked function agrees; without it the id of an action 100,000
-- receipts further on is that of the same action in the next shard.
pub compute_order_id_unchecked_lem :
    (p : Position)
    → IsU32 p
    → ((id : ℕ) → compute_order_id p ≡ ok id → compute_order_id_unchecked p ≡ id)
      × (compute_order_id_unchecked (record p { receipt_index = p.receipt_index + 100_000 })
          ≡ compute_order_id_unchecked (record p { shard_id = p.shard_id + 1 }))
unfolding compute_order_id_unchecked compute_order_id encode
compute_order_id_unchecked_lem p (hs, hr, ha) = ((λ id h. ground arith), omega arith)
