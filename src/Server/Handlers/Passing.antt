-- ===== src/Server/Handlers/Passing.antt =====
-- What the checks of the handlers let through.
use key_manager.Base.{
  not, ℕ, ◌≤◌, ◌≡◌, refl, Bool, true, false, ◌||◌, Option, none, some, List, [], ◌∷◌, Result, ◌>>◌,
  refuse, arith, ltb, is_empty, length, All, is_some, or_false,
}
use key_manager.Base.Text.{Str, codes, len, ◌==ₛ◌}
use key_manager.Base.Text.Laws.{==ₛ_iff}
use key_manager.Server.Errors.{ApiError}
use key_manager.Server.Validate.{
  Check, passed, validate_account_id, validate_key, validate_limit, validate_cursor_or_offset,
  validate_offset, is_negative, max_cursor_length, max_batch_keys, max_batch_key_length,
  max_key_length,
}
use key_manager.Server.Validate.Laws.{
  Passes, >>-Passes, len-pos, Sized, CursorFits, validate_account_id_iff, validate_key_iff,
  validate_limit_iff, validate_prefix_iff, validate_block_range_iff,
}
use key_manager.Server.Cursor.{parse_history_cursor, parse_timeline_cursor}
use key_manager.Server.Models.Params.{
  GetParams, QueryParams, WritersParams, HistoryParams, AccountsQueryParams, ContractsQueryParams,
  DiffParams, TimelineParams, BatchQuery, EdgesParams, EdgesCountParams, WatchParams,
}
use key_manager.Server.Handlers.Checks.{
  account, contract, check_key, get_checks, check_format, query_checks, check_cursor,
  history_checks, check_some, writers_checks, check_scan, accounts_checks, contracts_checks,
  diff_checks, timeline_checks, check_keys, batch_checks, edges_checks, edges_count_checks,
  watch_checks,
}
use key_manager.Server.Handlers.Fits.{
  IsAccount, IsKey, IsLimit, IfGiven, GetFits, QueryFits, HistoryFits, WritersFits, TimelineFits,
  AccountsFits, ContractsFits, DiffFits, BatchFits, EdgesFits, EdgesCountFits, WatchFits,
}

-- A test that let the request through was false.
refuse-Passes :
    (test : Bool) (why : ApiError) (k : Check)
    → Passes (refuse test why >> k)
    → (test ≡ false) × Passes k
refuse-Passes true why k h = absurd (ground (arith, h))
refuse-Passes false why k h = (refl, h)

IsAccount-Passes : (s name : Str) → Passes (validate_account_id s name) → IsAccount s
IsAccount-Passes s name h = (validate_account_id_iff s name).0 h

key-Passes : (s name : Str) (most : ℕ) → Passes (validate_key s name most) → Sized most s
key-Passes s name most h = (validate_key_iff s name most).0 h

IsLimit-Passes : (n : ℕ) → Passes (validate_limit n) → IsLimit n
IsLimit-Passes n h = (validate_limit_iff n).0 h

some-Passes :
    (P : Str → Type 0) (value : Option Str) (check : Str → Check)
    → ((s : Str) → Passes (check s) → P s)
    → Passes (check_some value check)
    → IfGiven P value
some-Passes P none check f h = tt
some-Passes P (some s) check f h = f s h

cursor-Passes :
    (P : Str → Type 0) (check : Str → Str → Check) (cursor : Option Str) (name : Str) (offset : ℕ)
    → ((c : Str) → Passes (check c name) → P c)
    → Passes (validate_cursor_or_offset cursor name offset check)
    → CursorFits P cursor offset
unfolding validate_cursor_or_offset validate_offset
cursor-Passes P check none name offset f h = ground (arith, h)
cursor-Passes P check (some c) name offset f h =
    let (checked, alone) = (>>-Passes (check c name) (refuse (ltb 0 offset) _ >> passed)).0 h in
    (f c checked, ground (arith, alone))

pub get_checks-GetFits : (q : GetParams) → Passes (get_checks q) → GetFits q
unfolding get_checks
get_checks-GetFits q h =
    let (a, h1) = (>>-Passes _ _).0 h in
    let (b, c) = (>>-Passes _ _).0 h1 in
    (IsAccount-Passes _ _ a, IsAccount-Passes _ _ b, key-Passes _ _ _ c)

format-Passes :
    (format : Option Str) → Passes (check_format format) → IfGiven (λ f. f ≡ codes "tree") format
unfolding check_format
format-Passes none h = tt
format-Passes (some f) h =
    let (same, rest) = refuse-Passes (not (f ==ₛ codes "tree")) _ passed h in
    (==ₛ_iff f (codes "tree")).0 (ground (arith, same))

pub query_checks-QueryFits : (q : QueryParams) → Passes (query_checks q) → QueryFits q
unfolding query_checks
query_checks-QueryFits q h =
    let (p0, h1) = (>>-Passes _ _).0 h in
    let (p1, h2) = (>>-Passes _ _).0 h1 in
    let (p2, h3) = (>>-Passes _ _).0 h2 in
    let (p3, h4) = (>>-Passes _ _).0 h3 in
    let (p4, p5) = (>>-Passes _ _).0 h4 in
    (
      IsAccount-Passes _ _ p0,
      IsAccount-Passes _ _ p1,
      IsLimit-Passes _ p2,
      (validate_prefix_iff q.key_prefix).0 p3,
      cursor-Passes IsKey (λ c n. validate_key c n max_key_length) q.after_key _ q.offset
          (λ c. key-Passes c _ _) p4,
      format-Passes q.format p5,
    )

read_cursor-Passes :
    {A : Type 0} (parse : Str → Result A ApiError) (cursor : Option Str)
    → Passes (check_cursor parse cursor)
    → IfGiven (λ c. len c ≤ 1024) cursor
unfolding check_cursor
read_cursor-Passes parse none h = tt
read_cursor-Passes parse (some c) h =
    let (short, rest) = refuse-Passes (ltb max_cursor_length (len c)) _ _ h in ground (arith, short)

pub history_checks-HistoryFits : (q : HistoryParams) → Passes (history_checks q) → HistoryFits q
unfolding history_checks
history_checks-HistoryFits q h =
    let (p0, h1) = (>>-Passes _ _).0 h in
    let (p1, h2) = (>>-Passes _ _).0 h1 in
    let (p2, h3) = (>>-Passes _ _).0 h2 in
    let (p3, h4) = (>>-Passes _ _).0 h3 in
    let (p4, h5) = (>>-Passes _ _).0 h4 in
    let (p5, p6) = (>>-Passes _ _).0 h5 in
    (
      IsAccount-Passes _ _ p0,
      IsAccount-Passes _ _ p1,
      key-Passes _ _ _ p2,
      IsLimit-Passes _ p3,
      (validate_block_range_iff q.from_block q.to_block).0 p5,
      read_cursor-Passes parse_history_cursor q.cursor p6,
    )

pub timeline_checks-TimelineFits :
    (q : TimelineParams) → Passes (timeline_checks q) → TimelineFits q
unfolding timeline_checks
timeline_checks-TimelineFits q h =
    let (p0, h1) = (>>-Passes _ _).0 h in
    let (p1, h2) = (>>-Passes _ _).0 h1 in
    let (p2, h3) = (>>-Passes _ _).0 h2 in
    let (p3, h4) = (>>-Passes _ _).0 h3 in
    let (p4, p5) = (>>-Passes _ _).0 h4 in
    (
      IsAccount-Passes _ _ p0,
      IsAccount-Passes _ _ p1,
      IsLimit-Passes _ p2,
      (validate_block_range_iff q.from_block q.to_block).0 p4,
      read_cursor-Passes parse_timeline_cursor q.cursor p5,
    )

pub writers_checks-WritersFits : (q : WritersParams) → Passes (writers_checks q) → WritersFits q
unfolding writers_checks
writers_checks-WritersFits q h =
    let (p0, h1) = (>>-Passes _ _).0 h in
    let (p1, h2) = (>>-Passes _ _).0 h1 in
    let (p2, h3) = (>>-Passes _ _).0 h2 in
    let (p3, p4) = (>>-Passes _ _).0 h3 in
    (
      IsAccount-Passes _ _ p0,
      key-Passes _ _ _ p1,
      IsLimit-Passes _ p2,
      some-Passes IsAccount q.predecessor_id _ (λ s. IsAccount-Passes s account) p3,
      cursor-Passes IsAccount validate_account_id q.after_account _ q.offset
          (λ c. IsAccount-Passes c _) p4,
    )

scan-Passes : (q : AccountsQueryParams) → Passes (check_scan q) → IfGiven IsAccount q.contract_id
unfolding check_scan
scan-Passes q h = go q.contract_id h
  where
    go :
        (contract_id : Option Str)
        → Passes (elim contract_id [
          | some cid ↦ validate_account_id cid contract
          | none ↦ do
            refuse (is_some q.key) (ApiError.invalid_parameter (codes "key: requires contractId"))
            refuse (ltb 0 q.offset) (
                ApiError.invalid_parameter
                  (codes "offset: requires contractId (use after_account cursor instead)"))
            passed
        ])
        → IfGiven IsAccount contract_id
    go none k = tt
    go (some cid) k = IsAccount-Passes cid contract k

pub accounts_checks-AccountsFits :
    (q : AccountsQueryParams) → Passes (accounts_checks q) → AccountsFits q
unfolding accounts_checks
accounts_checks-AccountsFits q h =
    let (p0, h1) = (>>-Passes _ _).0 h in
    let (p1, h2) = (>>-Passes _ _).0 h1 in
    let (p2, p3) = (>>-Passes _ _).0 h2 in
    (
      scan-Passes q p0,
      IsLimit-Passes _ p1,
      some-Passes IsKey q.key check_key (λ s. key-Passes s _ _) p2,
      cursor-Passes IsAccount validate_account_id q.after_account _ q.offset
          (λ c. IsAccount-Passes c _) p3,
    )

pub contracts_checks-ContractsFits :
    (q : ContractsQueryParams) → Passes (contracts_checks q) → ContractsFits q
unfolding contracts_checks
contracts_checks-ContractsFits q h =
    let (p0, p1) = (>>-Passes _ _).0 h in
    (
      (let l = IsLimit-Passes _ p0 in omega (arith, l.0)),
      some-Passes IsAccount q.after_contract _ (λ s. IsAccount-Passes s _) p1,
    )

pub diff_checks-DiffFits : (q : DiffParams) → Passes (diff_checks q) → DiffFits q
unfolding diff_checks
diff_checks-DiffFits q h =
    let (p0, h1) = (>>-Passes _ _).0 h in
    let (p1, h2) = (>>-Passes _ _).0 h1 in
    let (p2, h3) = (>>-Passes _ _).0 h2 in
    let (negative, rest) =
      refuse-Passes (is_negative q.block_height_a || is_negative q.block_height_b) _ passed h3 in
    let (a, b) = or_false (is_negative q.block_height_a) (is_negative q.block_height_b) negative in
    (IsAccount-Passes _ _ p0, IsAccount-Passes _ _ p1, key-Passes _ _ _ p2, a, b)

keys_pass : (keys : List Str) → Passes (check_keys keys) → All (λ k. Sized 1024 k) keys
unfolding check_keys
keys_pass [] h = tt
keys_pass ([] ∷ keys) h = absurd (ground (arith, h))
keys_pass ((c ∷ key) ∷ keys) h =
    let (short, rest) =
      refuse-Passes (ltb max_batch_key_length (len (c ∷ key))) _ (check_keys keys) h in
    ((len-pos c key, ground (arith, short)), keys_pass keys rest)

not_empty : (keys : List Str) → is_empty keys ≡ false → 1 ≤ length keys
not_empty [] h = absurd (ground (arith, h))
not_empty (k ∷ keys) h = omega arith

pub batch_checks-BatchFits : (q : BatchQuery) → Passes (batch_checks q) → BatchFits q
unfolding batch_checks
batch_checks-BatchFits q h =
    let (p0, h1) = (>>-Passes _ _).0 h in
    let (p1, h2) = (>>-Passes _ _).0 h1 in
    let (full, h3) = refuse-Passes (is_empty q.keys) _ _ h2 in
    let (few, h4) = refuse-Passes (ltb max_batch_keys (length q.keys)) _ _ h3 in
    (
      IsAccount-Passes _ _ p0,
      IsAccount-Passes _ _ p1,
      not_empty q.keys full,
      ground (arith, few),
      keys_pass q.keys h4,
    )

pub edges_checks-EdgesFits : (q : EdgesParams) → Passes (edges_checks q) → EdgesFits q
unfolding edges_checks
edges_checks-EdgesFits q h =
    let (p0, h1) = (>>-Passes _ _).0 h in
    let (p1, h2) = (>>-Passes _ _).0 h1 in
    let (p2, p3) = (>>-Passes _ _).0 h2 in
    (
      key-Passes _ _ _ p0,
      IsAccount-Passes _ _ p1,
      IsLimit-Passes _ p2,
      cursor-Passes IsAccount validate_account_id q.after_source _ q.offset
          (λ c. IsAccount-Passes c _) p3,
    )

pub edges_count_checks-EdgesCountFits :
    (q : EdgesCountParams) → Passes (edges_count_checks q) → EdgesCountFits q
unfolding edges_count_checks
edges_count_checks-EdgesCountFits q h =
    let (p0, p1) = (>>-Passes _ _).0 h in (key-Passes _ _ _ p0, IsAccount-Passes _ _ p1)

pub watch_checks-WatchFits : (q : WatchParams) → Passes (watch_checks q) → WatchFits q
unfolding watch_checks
watch_checks-WatchFits q h =
    let (p0, h1) = (>>-Passes _ _).0 h in
    let (p1, p2) = (>>-Passes _ _).0 h1 in
    (IsAccount-Passes _ _ p0, IsAccount-Passes _ _ p1, key-Passes _ _ _ p2)
