-- ===== src/Server/ScyllaDb/Contracts.antt =====
-- `query_contracts_by_account` of fastkv-server/src/scylladb.rs over rows in clustering order.
use key_manager.Base.{
  ℕ, ◌≡◌, refl, sym, ap, ◌∙◌, ◌⊎◌, ◌↔◌, inl, inr, Bool, true, false, not, ◌&&◌, Option, none, some,
  List, [], ◌∷◌, subst, ok, err, arith, ltb, length, take, Bool-cases,
}
use key_manager.Base.Text.{Str, ◌==ₛ◌}
use key_manager.Base.Text.Laws.{==ₛ_iff}
use key_manager.Server.Page.{collect_page}
use key_manager.Server.Page.Laws.{valid, add, collect_page-slice}
use key_manager.Server.Prefix.{before}
use key_manager.Server.ScyllaDb.{Session, Stream, query_contracts_by_account}
use key_manager.Server.ScyllaDb.Scans.{Distinct, distinct, is_last, not_after, start_distinct}

-- `contract` comes after the bound, if there is one.
abbrev pub IsBehind : Option Str → Str → Type 0
IsBehind none contract = Unit
IsBehind (some bound) contract = before bound contract ≡ true

-- Ascending from the bound on, without a text twice.
abbrev pub Ascending : Option Str → List Str → Type 0
Ascending bound [] = Unit
Ascending bound (x ∷ xs) = IsBehind bound x × Ascending (some x) xs

-- The rows that can be read do not descend, as the clustering order of the table has it.
abbrev pub Ordered : {E : Type 0} → Str → Stream Str E → Type 0
Ordered least [] = Unit
Ordered least (err e ∷ rows) = Ordered least rows
Ordered least (ok x ∷ rows) = (before x least ≡ false) × Ordered x rows

abbrev pub Among : Str → List Str → Type 0
Among x [] = ⊥
Among x (y ∷ ys) = (x ≡ y) ⊎ Among x ys

before_total : (s t : Str) → before t s ≡ false → (t ==ₛ s) ≡ false → before s t ≡ true
unfolding before ◌==ₛ◌
before_total [] [] h e = absurd (ground (arith, e))
before_total [] (d ∷ t) h e = refl
before_total (c ∷ s) [] h e = absurd (ground (arith, h))
before_total (c ∷ s) (d ∷ t) h e = ground (arith, h, e, before_total s t)

is_last-some : (last : Option Str) (y : Str) → is_last last y ≡ true → last ≡ some y
is_last-some none y h = absurd (ground (arith, h))
is_last-some (some prev) y h = ap some (sym ((==ₛ_iff y prev).0 h))

some-injective : (x y : Str) → some x ≡ some y → x ≡ y
some-injective x y e = ground (arith, e)

distinct-some :
    (skips : Str → Bool) (v : Distinct) (y x : Str)
    → (distinct skips v y).0 ≡ some x
    → some y ≡ some x
unfolding distinct
distinct-some skips v y x h = elim (Bool-cases (is_last v.last_contract y)) [
  | inl same ↦ absurd (ground (arith, same, h))
  | inr apart ↦ elim (Bool-cases (not v.past_cursor && skips y)) [
    | inl skipped ↦ absurd (ground (arith, apart, skipped, h))
    | inr kept ↦ ground (arith, apart, kept, h)
  ]
]

Among-add :
    (x : Str) (o : Option Str) (xs : List Str) → Among x (add o xs) → (o ≡ some x) ⊎ Among x xs
Among-add x none xs h = inr h
Among-add x (some y) xs (inl e) = inl (ap some (sym e))
Among-add x (some y) xs (inr h) = inr h

before_trans : (s t u : Str) → before s t ≡ true → before t u ≡ true → before s u ≡ true
unfolding before
before_trans s [] u h k = absurd (ground (arith, h))
before_trans s (d ∷ t) [] h k = absurd (ground (arith, k))
before_trans [] (d ∷ t) (e ∷ u) h k = refl
before_trans (c ∷ s) (d ∷ t) (e ∷ u) h k = ground (arith, h, k, before_trans s t u)

Ascending-IsBehind :
    (bound : Option Str) (xs : List Str) (x : Str)
    → Ascending bound xs
    → Among x xs
    → IsBehind bound x
Ascending-IsBehind none xs x h k = tt
Ascending-IsBehind (some b) [] x h k = absurd k
Ascending-IsBehind (some b) (y ∷ xs) x (h, hs) (inl e) = subst (λ t. before b t ≡ true) (sym e) h
Ascending-IsBehind (some b) (y ∷ xs) x (h, hs) (inr later) =
    before_trans b y x h (Ascending-IsBehind (some y) xs x hs later)

not_after-behind : (after : Option Str) (x : Str) → IsBehind after x → not_after after x ≡ false
unfolding not_after
not_after-behind none x h = refl
not_after-behind (some c) x h = ground (arith, h)

-- The text is in one of the rows that can be read.
abbrev pub Listed : {E : Type 0} → Str → Stream Str E → Type 0
Listed x [] = ⊥
Listed x (err e ∷ rows) = Listed x rows
Listed x (ok y ∷ rows) = (x ≡ y) ⊎ Listed x rows

module _ {E : Type 0} (after : Option Str) where
  abbrev pub contracts_from : Distinct → Stream Str E → List Str
  contracts_from v rows = valid (distinct (not_after after)) v rows

  -- behind the cursor
  past-Ascending :
      (rows : Stream Str E) (l : Str)
      → Ordered l rows
      → Ascending
          (some l)
          (contracts_from (record { last_contract = some l; past_cursor = true }) rows)
  unfolding valid distinct
  past-Ascending [] l h = tt
  past-Ascending (err e ∷ rows) l h = past-Ascending rows l h
  past-Ascending (ok x ∷ rows) l (h, hs) = elim (Bool-cases (x ==ₛ l)) [
    | inl same ↦
        rw same (past-Ascending rows l (subst (λ t. Ordered t rows) ((==ₛ_iff x l).0 same) hs))
    | inr apart ↦ rw apart (before_total l x h apart, past-Ascending rows x hs)
  ]

module _ {E : Type 0} where
  -- up to the cursor
  before_cursor-Ascending :
      (cursor : Str) (rows : Stream Str E) (last : Option Str) (l : Str)
      → Ordered l rows
      → Ascending
          (some cursor)
          (contracts_from (some cursor) (record { last_contract = last; past_cursor = false }) rows)
  unfolding valid distinct not_after
  before_cursor-Ascending cursor [] last l h = tt
  before_cursor-Ascending cursor (err e ∷ rows) last l h =
      before_cursor-Ascending cursor rows last l h
  before_cursor-Ascending cursor (ok x ∷ rows) last l (h, hs) = elim (Bool-cases (is_last last x)) [
    | inl same ↦ rw same (before_cursor-Ascending cursor rows last x hs)
    | inr apart ↦ rw apart (elim (Bool-cases (before cursor x)) [
      | inl behind ↦ rw behind (behind, past-Ascending (some cursor) rows x hs)
      | inr ahead ↦ rw ahead (before_cursor-Ascending cursor rows (some x) x hs)
    ])
  ]

  first-Ascending :
      (rows : Stream Str E) (l : Str)
      → Ordered l rows
      → Ascending none (contracts_from none (start_distinct none) rows)
  unfolding valid distinct
  first-Ascending [] l h = tt
  first-Ascending (err e ∷ rows) l h = first-Ascending rows l h
  first-Ascending (ok x ∷ rows) l (h, hs) = (tt, past-Ascending none rows x hs)

  start-Ascending :
      (after : Option Str) (rows : Stream Str E)
      → Ordered [] rows
      → Ascending after (contracts_from after (start_distinct after) rows)
  start-Ascending none rows h = first-Ascending rows [] h
  start-Ascending (some cursor) rows h = before_cursor-Ascending cursor rows none [] h

  -- Nothing behind the cursor is left out but what came last.
  Listed-Among :
      (after : Option Str) (rows : Stream Str E) (v : Distinct) (x : Str)
      → Listed x rows
      → not_after after x ≡ false
      → Among x (contracts_from after v rows) ⊎ (v.last_contract ≡ some x)
  unfolding valid distinct
  Listed-Among after [] v x h behind = absurd h
  Listed-Among after (err e ∷ rows) v x h behind = Listed-Among after rows v x h behind
  Listed-Among after (ok y ∷ rows) v x h behind = elim (Bool-cases (is_last v.last_contract y)) [
    | inl same ↦ rw same (elim h [
      | inl here ↦ inr (is_last-some v.last_contract y same ∙ ap some (sym here))
      | inr later ↦ Listed-Among after rows v x later behind
    ])
    | inr apart ↦ rw apart (elim (Bool-cases (not v.past_cursor && not_after after y)) [
      | inl skipped ↦ rw skipped (elim h [
        | inl here ↦ absurd (ground (arith, skipped, behind, ap (not_after after) here))
        | inr later ↦
            elim (Listed-Among after rows (record v { last_contract = some y }) x later behind) [
              | inl found ↦ inl found
              | inr e ↦
                  absurd
                    (ground (arith, skipped, behind, ap (not_after after) (some-injective y x e)))
            ]
      ])
      | inr kept ↦ rw kept (elim h [
        | inl here ↦ inl (inl here)
        | inr later ↦
            elim (Listed-Among after rows (record { last_contract = some y; past_cursor = true }) x
              later behind) [
                | inl found ↦ inl (inr found)
                | inr e ↦ inl (inl (sym (some-injective y x e)))
              ]
      ])
    ])
  ]

  Among-Listed :
      (after : Option Str) (rows : Stream Str E) (v : Distinct) (x : Str)
      → Among x (contracts_from after v rows)
      → Listed x rows
  unfolding valid
  Among-Listed after [] v x h = h
  Among-Listed after (err e ∷ rows) v x h = Among-Listed after rows v x h
  Among-Listed after (ok y ∷ rows) v x h =
      let step = distinct (not_after after) v y in
      elim (Among-add x step.0 (contracts_from after step.1 rows) h) [
        | inl e ↦ inl (sym (some-injective y x (distinct-some (not_after after) v y x e)))
        | inr later ↦ inr (Among-Listed after rows step.1 x later)
      ]

module _ {E : Type 0} (session : Session E) where
  -- Rows in the clustering order give a page of a list of contracts that ascends strictly, so that none is there
  -- twice, and in which there are exactly the contracts of the rows that come behind the cursor: the page is the first
  -- `limit` of them, and `has_more` tells whether there are others. So a page that starts behind the last
  -- contract of another repeats none of it.
  pub query_contracts_by_account_lem :
      (account_id : Str) (limit : ℕ) (after : Option Str) (rows : Stream Str E)
      → session.contracts_by_account account_id ≡ ok rows
      → Ordered [] rows
      → (contracts : List Str) × (dropped_rows : ℕ) × (query_contracts_by_account session account_id
            limit after
          ≡ ok (take limit contracts, ltb limit (length contracts), dropped_rows))
        × Ascending after contracts
        × ((x : Str) → Among x contracts ↔ (Listed x rows × IsBehind after x))
  unfolding query_contracts_by_account
  query_contracts_by_account_lem account_id limit after rows h ordered =
      let start = start_distinct after in
      let ascending = start-Ascending after rows ordered in
      let page = collect_page limit 0 none (distinct (not_after after)) start rows in
      let (items, more, whole) =
        collect_page-slice limit 0 (distinct (not_after after)) start rows in
      (
        contracts_from after start rows,
        page.dropped_rows,
        rw h (
            ap (λ p. ok (p, page.has_more, page.dropped_rows)) items
            ∙ ap (λ b. ok (take limit (contracts_from after start rows), b, page.dropped_rows))
                more),
        ascending,
        λ x. (
          (λ k. (
            Among-Listed after rows start x k,
            Ascending-IsBehind after (contracts_from after start rows) x ascending k,
          )),
          λ (listed, behind).
              elim (Listed-Among after rows start x listed (not_after-behind after x behind)) [
                | inl found ↦ found
                | inr e ↦ absurd (ground (arith, e))
              ],
        ),
      )
