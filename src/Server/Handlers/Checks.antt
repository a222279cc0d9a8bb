-- ===== src/Server/Handlers/Checks.antt =====
-- The checks with which the handlers of fastkv-server/src/handlers.rs begin, in their order.
use key_manager.Base.{
  ℕ, ◌||◌, not, Option, none, some, List, [], ◌∷◌, ◌++◌, Result, ◌>>=◌, ◌>>◌, refuse, ltb, min,
  is_empty, length, if◌then◌else◌, is_some,
}
use key_manager.Base.Text.{Str, codes, len, ◌==ₛ◌}
use key_manager.Base.Decimal.{show}
use key_manager.Server.Errors.{ApiError}
use key_manager.Server.Cursor.{parse_history_cursor, parse_timeline_cursor}
use key_manager.Server.Validate.{
  Check, passed, validate_account_id, validate_key, validate_limit, validate_cursor_or_offset,
  validate_order, validate_block_range, validate_prefix, is_negative, max_key_length,
  max_cursor_length, max_batch_keys, max_batch_key_length, max_edge_type_length, max_scan_limit,
}
use key_manager.Server.Models.Params.{
  GetParams, QueryParams, WritersParams, HistoryParams, AccountsQueryParams, ContractsQueryParams,
  DiffParams, TimelineParams, BatchQuery, EdgesParams, EdgesCountParams, WatchParams,
}

abbrev pub account : Str
account = codes "accountId"

abbrev pub contract : Str
contract = codes "contractId"

abbrev pub check_key : Str → Check
check_key key = validate_key key (codes "key") max_key_length

unfoldable pub get_checks : GetParams → Check
get_checks query = do
  validate_account_id query.predecessor_id account
  validate_account_id query.current_account_id contract
  check_key query.key

unfoldable pub check_format : Option Str → Check
check_format none = passed
check_format (some fmt) = do
  refuse (not (fmt ==ₛ codes "tree"))
      (ApiError.invalid_parameter (codes "format: must be 'tree' or omitted"))
  passed

unfoldable pub query_checks : QueryParams → Check
query_checks query = do
  validate_account_id query.predecessor_id account
  validate_account_id query.current_account_id contract
  validate_limit query.limit
  validate_prefix query.key_prefix
  validate_cursor_or_offset query.after_key (codes "after_key") query.offset
      (λ c n. validate_key c n max_key_length)
  check_format query.format

-- A cursor is bounded, and read unless it is empty; what it says is not used.
unfoldable pub check_cursor : {A : Type 0} → (Str → Result A ApiError) → Option Str → Check
check_cursor parse none = passed
check_cursor parse (some c) = do
  refuse (ltb max_cursor_length (len c))
      (ApiError.invalid_parameter (codes "cursor: exceeds max length"))
  if is_empty c then passed else (parse c >>= λ parts. passed)

unfoldable pub history_checks : HistoryParams → Check
history_checks query = do
  validate_account_id query.predecessor_id account
  validate_account_id query.current_account_id contract
  check_key query.key
  validate_limit query.limit
  validate_order query.order
  validate_block_range query.from_block query.to_block
  check_cursor parse_history_cursor query.cursor

-- `if let Some(ref v) = value { check(v)?; }`
abbrev pub check_some : Option Str → (Str → Check) → Check
check_some none check = passed
check_some (some v) check = check v

unfoldable pub writers_checks : WritersParams → Check
writers_checks query = do
  validate_account_id query.current_account_id contract
  check_key query.key
  validate_limit query.limit
  check_some query.predecessor_id (λ pred. validate_account_id pred account)
  validate_cursor_or_offset query.after_account (codes "after_account") query.offset
      validate_account_id

abbrev pub scan_limit : AccountsQueryParams → ℕ
scan_limit query = if is_some query.contract_id then query.limit else min query.limit max_scan_limit

-- the first `if is_scan`
unfoldable pub check_scan : AccountsQueryParams → Check
check_scan query = elim query.contract_id [
  | some cid ↦ validate_account_id cid contract
  | none ↦ do
    refuse (is_some query.key) (ApiError.invalid_parameter (codes "key: requires contractId"))
    refuse (ltb 0 query.offset) (
        ApiError.invalid_parameter
          (codes "offset: requires contractId (use after_account cursor instead)"))
    passed
]

unfoldable pub accounts_checks : AccountsQueryParams → Check
accounts_checks query = do
  check_scan query
  validate_limit (scan_limit query)
  check_some query.key check_key
  validate_cursor_or_offset query.after_account (codes "after_account") query.offset
      validate_account_id

unfoldable pub contracts_checks : ContractsQueryParams → Check
contracts_checks query = do
  validate_limit (min query.limit max_scan_limit)
  check_some query.after_contract (λ cursor. validate_account_id cursor (codes "after_contract"))

unfoldable pub diff_checks : DiffParams → Check
diff_checks query = do
  validate_account_id query.predecessor_id account
  validate_account_id query.current_account_id contract
  check_key query.key
  refuse (is_negative query.block_height_a || is_negative query.block_height_b)
      (ApiError.invalid_parameter (codes "block_height_a/block_height_b: must be non-negative"))
  passed

unfoldable pub timeline_checks : TimelineParams → Check
timeline_checks query = do
  validate_account_id query.predecessor_id account
  validate_account_id query.current_account_id contract
  validate_limit query.limit
  validate_order query.order
  validate_block_range query.from_block query.to_block
  check_cursor parse_timeline_cursor query.cursor

-- the loop over the keys of a batch
unfoldable pub check_keys : List Str → Check
check_keys [] = passed
check_keys (key ∷ keys) = do
  refuse (is_empty key) (ApiError.invalid_parameter (codes "keys[]: cannot be empty"))
  refuse (ltb max_batch_key_length (len key)) (
      ApiError.invalid_parameter
        (codes "keys[]: cannot exceed " ++ (show max_batch_key_length ++ codes " characters")))
  check_keys keys

unfoldable pub batch_checks : BatchQuery → Check
batch_checks body = do
  validate_account_id body.predecessor_id account
  validate_account_id body.current_account_id contract
  refuse (is_empty body.keys) (ApiError.invalid_parameter (codes "keys: cannot be empty"))
  refuse (ltb max_batch_keys (length body.keys)) (
      ApiError.invalid_parameter
        (codes "keys: cannot exceed " ++ (show max_batch_keys ++ codes " items")))
  check_keys body.keys

unfoldable pub edges_checks : EdgesParams → Check
edges_checks query = do
  validate_key query.edge_type (codes "edge_type") max_edge_type_length
  validate_account_id query.target (codes "target")
  validate_limit query.limit
  validate_cursor_or_offset query.after_source (codes "after_source") query.offset
      validate_account_id

unfoldable pub edges_count_checks : EdgesCountParams → Check
edges_count_checks query = do
  validate_key query.edge_type (codes "edge_type") max_edge_type_length
  validate_account_id query.target (codes "target")

unfoldable pub watch_checks : WatchParams → Check
watch_checks query = do
  validate_account_id query.predecessor_id account
  validate_account_id query.current_account_id contract
  check_key query.key
