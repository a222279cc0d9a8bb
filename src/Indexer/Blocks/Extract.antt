-- ===== src/Indexer/Blocks/Extract.antt =====
-- What is taken out of a block.
use key_manager.Base.{
  ℕ, ◌+◌, ◌≤◌, ◌≡◌, ◌≢◌, refl, sym, ap, ◌∙◌, subst, ◌⊎◌, inl, inr, true, false, ◌||◌, Option, none,
  some, List, [], ◌∷◌, All, any, All-append, all→All, arith, Bool-cases, Option-cases, ◌==◌,
}
use key_manager.Base.Text.{Str, Bytes, ◌==ₛ◌, len, strip_prefix, is_ascii_alphanumeric}
use key_manager.Base.Text.Laws.{==ₛ_iff, Lacks}
use key_manager.Base.Decimal.{u64_max}
use key_manager.Indexer.RedisDb.{FastData, universal_suffix, fastdata_key}
use key_manager.Indexer.SuffixFetcher.{key_height}
use key_manager.Indexer.SuffixFetcher.Keys.{key_height-fastdata_key}
use key_manager.Indexer.Blocks.{
  Action, function_call, other, Outcome, Shard, Block, fastdata_prefix, is_invalid_suffix,
  passes_filter, action_data, actions_data, receipt_data, shard_data, shards_data, block_data,
}

abbrev pub Among : Str → List Str → Type 0
Among x [] = ⊥
Among x (y ∷ ys) = (x ≡ y) ⊎ Among x ys

-- If accounts are asked for, one of the three of the datum is among them.
abbrev pub IsAskedFor : Option (List Str) → FastData → Type 0
IsAskedFor none fd = Unit
IsAskedFor (some accounts) fd =
    Among fd.predecessor_id accounts
    ⊎ (Among fd.signer_id accounts ⊎ Among fd.current_account_id accounts)

any-Among : (accounts : List Str) (x : Str) → any (λ a. a ==ₛ x) accounts ≡ true → Among x accounts
any-Among [] x h = absurd (ground (arith, h))
any-Among (a ∷ accounts) x h = elim (Bool-cases (a ==ₛ x)) [
  | inl here ↦ inl (sym ((==ₛ_iff a x).0 here))
  | inr apart ↦ inr (any-Among accounts x (ground (arith, apart, h)))
]

passes_filter-IsAskedFor :
    (filter : Option (List Str)) (fd : FastData)
    → passes_filter filter fd.predecessor_id fd.signer_id fd.current_account_id ≡ true
    → IsAskedFor filter fd
unfolding passes_filter
passes_filter-IsAskedFor none fd h = tt
passes_filter-IsAskedFor (some accounts) fd h =
    elim (Bool-cases (any (λ a. a ==ₛ fd.predecessor_id) accounts)) [
      | inl by_predecessor ↦ inl (any-Among accounts fd.predecessor_id by_predecessor)
      | inr other_predecessor ↦ elim (Bool-cases (any (λ a. a ==ₛ fd.signer_id) accounts)) [
        | inl by_signer ↦ inr (inl (any-Among accounts fd.signer_id by_signer))
        | inr other_signer ↦ inr (
            inr (
              any-Among accounts fd.current_account_id
                (ground (arith, other_predecessor, other_signer, h))))
      ]
    ]

-- A suffix of letters, digits, `_` and `-`, 1 to 64 of them, other than the indexer's own.
abbrev pub IsSuffix : Str → Type 0
IsSuffix suffix =
    (suffix ≢ [])
    × (suffix ≢ universal_suffix)
    × (len suffix ≤ 64)
    × All (λ c. (is_ascii_alphanumeric c || c == b'_' || c == b'-') ≡ true) suffix

valid→IsSuffix : (suffix : Str) → is_invalid_suffix suffix ≡ false → IsSuffix suffix
unfolding is_invalid_suffix
valid→IsSuffix [] h = absurd (ground (arith, h))
valid→IsSuffix (c ∷ s) h = (
  cc,
  ground (arith, h, ==ₛ_iff (c ∷ s) universal_suffix),
  ground (arith, h),
  all→All (λ d. is_ascii_alphanumeric d || d == b'_' || d == b'-') (c ∷ s) (ground (arith, h)),
)

colon : (c : ℕ) → (is_ascii_alphanumeric c || c == b'_' || c == b'-') ≡ true → c ≢ b':'
colon c h e = ground (arith, h, e)

suffix-Lacks :
    (s : Str)
    → All (λ c. (is_ascii_alphanumeric c || c == b'_' || c == b'-') ≡ true) s
    → Lacks b':' s
suffix-Lacks [] h = tt
suffix-Lacks (c ∷ s) (h, hs) = (colon c h, suffix-Lacks s hs)

module _ (base64_encode : Bytes → Str) (filter_accounts : Option (List Str)) (block : Block) where
  -- What every datum of a block satisfies.
  abbrev pub IsIndexed : FastData → Type 0
  IsIndexed fd =
      IsSuffix fd.suffix × IsAskedFor filter_accounts fd × (fd.block_height ≡ block.height)

  abbrev datum : ℕ → ℕ → Outcome → Str → ℕ → Str → Bytes → FastData
  datum shard_id receipt_index o signer_id action_index suffix args = record {
    receipt_id = o.receipt_id;
    action_index = action_index;
    suffix = suffix;
    base64 = base64_encode args;
    tx_hash = o.tx_hash;
    signer_id = signer_id;
    predecessor_id = o.predecessor_id;
    current_account_id = o.receiver_id;
    block_height = block.height;
    block_timestamp = block.timestamp;
    shard_id = shard_id;
    receipt_index = receipt_index;
  }

  -- An action gives nothing, or one datum, of an accepted suffix and accounts.
  action_data-cases :
      (shard_id receipt_index : ℕ) (o : Outcome) (signer_id : Str) (action_index : ℕ)
      (action : Action)
      → (action_data base64_encode filter_accounts block shard_id receipt_index o signer_id
            action_index action
          ≡ [])
        ⊎ ((suffix : Str) × (args : Bytes) × (is_invalid_suffix suffix ≡ false)
            × (passes_filter filter_accounts o.predecessor_id signer_id o.receiver_id ≡ true)
            × (action_data base64_encode filter_accounts block shard_id receipt_index o signer_id
                  action_index action
                ≡ datum shard_id receipt_index o signer_id action_index suffix args ∷ []))
  action_data-cases shard_id receipt_index o signer_id action_index other =
      inl (unfold action_data in refl)
  action_data-cases shard_id receipt_index o signer_id action_index (function_call name args) =
      elim (Option-cases (strip_prefix name fastdata_prefix)) [
        | inl h ↦ inl (unfold action_data in ground (arith, h))
        | inr (suffix, h) ↦ elim (Bool-cases (is_invalid_suffix suffix)) [
          | inl bad ↦ inl (unfold action_data in ground (arith, h, bad))
          | inr good ↦
              elim (Bool-cases
                (passes_filter filter_accounts o.predecessor_id signer_id o.receiver_id)) [
                  | inl passes ↦ inr (
                    suffix,
                    args,
                    good,
                    passes,
                    unfold action_data in ground (arith, h, good, passes),
                  )
                  | inr filtered ↦ inl (unfold action_data in ground (arith, h, good, filtered))
                ]
        ]
      ]

  action_data-IsIndexed :
      (shard_id receipt_index : ℕ) (o : Outcome) (signer_id : Str) (action_index : ℕ)
      (action : Action)
      → All IsIndexed (
          action_data base64_encode filter_accounts block shard_id receipt_index o signer_id
            action_index action)
  action_data-IsIndexed shard_id receipt_index o signer_id action_index action =
      elim (action_data-cases shard_id receipt_index o signer_id action_index action) [
        | inl nothing ↦ subst (All IsIndexed) (sym nothing) tt
        | inr (suffix, args, good, passes, one) ↦ subst (All IsIndexed) (sym one) (
          (
            valid→IsSuffix suffix good,
            passes_filter-IsAskedFor filter_accounts
                (datum shard_id receipt_index o signer_id action_index suffix args) passes,
            refl,
          ),
          tt,
        )
      ]

  actions_data-IsIndexed :
      (shard_id receipt_index : ℕ) (o : Outcome) (signer_id : Str) (action_index : ℕ)
      (actions : List Action)
      → All IsIndexed (
          actions_data base64_encode filter_accounts block shard_id receipt_index o signer_id
            action_index actions)
  unfolding actions_data
  actions_data-IsIndexed shard_id receipt_index o signer_id action_index [] = tt
  actions_data-IsIndexed shard_id receipt_index o signer_id action_index (a ∷ actions) =
      All-append IsIndexed _ _
        (action_data-IsIndexed shard_id receipt_index o signer_id action_index a)
        (actions_data-IsIndexed shard_id receipt_index o signer_id (action_index + 1) actions)

  receipt_data-IsIndexed :
      (shard_id receipt_index : ℕ) (o : Outcome) (receipt : Option (Str × List Action))
      → o.receipt ≡ receipt
      → All IsIndexed (receipt_data base64_encode filter_accounts block shard_id receipt_index o)
  unfolding actions_data
  receipt_data-IsIndexed shard_id receipt_index o none h = rw h tt
  receipt_data-IsIndexed shard_id receipt_index o (some (signer, actions)) h =
      rw h (actions_data-IsIndexed shard_id receipt_index o signer 0 actions)

  shard_data-IsIndexed :
      (shard_id receipt_index : ℕ) (outcomes : List Outcome)
      → All IsIndexed
          (shard_data base64_encode filter_accounts block shard_id receipt_index outcomes)
  unfolding shard_data
  shard_data-IsIndexed shard_id receipt_index [] = tt
  shard_data-IsIndexed shard_id receipt_index (o ∷ outcomes) =
      All-append IsIndexed _ _ (receipt_data-IsIndexed shard_id receipt_index o o.receipt refl)
        (shard_data-IsIndexed shard_id (receipt_index + 1) outcomes)

  shards_data-IsIndexed :
      (shards : List Shard) → All IsIndexed (shards_data base64_encode filter_accounts block shards)
  unfolding shards_data
  shards_data-IsIndexed [] = tt
  shards_data-IsIndexed (s ∷ shards) =
      All-append IsIndexed _ _ (shard_data-IsIndexed s.shard_id 0 s.receipt_execution_outcomes)
        (shards_data-IsIndexed shards)

  -- Every datum taken out of a block has a suffix of 1 to 64 letters, digits, `_` and `-` that is
  -- not the indexer's own, one of its three accounts is among those of the filter if there is one, and its
  -- height is the block's.
  pub block_data-IsIndexed : All IsIndexed (block_data base64_encode filter_accounts block)
  unfolding block_data
  block_data-IsIndexed = shards_data-IsIndexed block.shards

  -- The suffix fetcher reads the block's height, if it is a u64, out of the key under which a datum
  -- with an accepted suffix is stored for a chain whose id has no colon.
  pub IsIndexed-key_height :
      (chain_id : Str) (fd : FastData)
      → Lacks b':' chain_id
      → block.height ≤ u64_max
      → IsIndexed fd
      → key_height (fastdata_key chain_id fd.suffix fd.block_height fd.receipt_id)
        ≡ some block.height
  IsIndexed-key_height chain_id fd hc hb ((_, _, _, suffix), _, height) =
      key_height-fastdata_key chain_id fd.suffix fd.block_height fd.receipt_id hc
        (suffix-Lacks fd.suffix suffix) (omega (arith, height, hb))
      ∙ ap some height
