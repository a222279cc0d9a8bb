-- ===== src/Server/Handlers/Fits.antt =====
-- What the parameters of a request are that the handlers of the server accept.
use key_manager.Base.{ℕ, ◌≤◌, ◌≡◌, false, Option, none, some, length, All}
use key_manager.Base.Text.{Str, codes, len}
use key_manager.Base.Decimal.{ℤ}
use key_manager.Server.Validate.{is_negative, max_account_id_length, max_key_length}
use key_manager.Server.Validate.Laws.{Sized, PrefixFits, RangeFits, CursorFits}
use key_manager.Server.Models.Params.{
  GetParams, QueryParams, WritersParams, HistoryParams, AccountsQueryParams, ContractsQueryParams,
  DiffParams, TimelineParams, BatchQuery, EdgesParams, EdgesCountParams, WatchParams,
}
use key_manager.Server.Handlers.Checks.{scan_limit}

-- An account id, a key, a limit.
abbrev pub IsAccount : Str → Type 0
IsAccount s = Sized max_account_id_length s

abbrev pub IsKey : Str → Type 0
IsKey s = Sized max_key_length s

abbrev pub IsLimit : ℕ → Type 0
IsLimit n = (1 ≤ n) × (n ≤ 1000)

-- A value that is given.
abbrev pub IfGiven : (Str → Type 0) → Option Str → Type 0
IfGiven P none = Unit
IfGiven P (some s) = P s

abbrev pub GetFits : GetParams → Type 0
GetFits q = IsAccount q.predecessor_id × IsAccount q.current_account_id × IsKey q.key

abbrev pub QueryFits : QueryParams → Type 0
QueryFits q =
    IsAccount q.predecessor_id
    × IsAccount q.current_account_id
    × IsLimit q.limit
    × PrefixFits q.key_prefix
    × CursorFits IsKey q.after_key q.offset
    × IfGiven (λ f. f ≡ codes "tree") q.format

abbrev pub HistoryFits : HistoryParams → Type 0
HistoryFits q =
    IsAccount q.predecessor_id
    × IsAccount q.current_account_id
    × IsKey q.key
    × IsLimit q.limit
    × RangeFits q.from_block q.to_block
    × IfGiven (λ c. len c ≤ 1024) q.cursor

abbrev pub WritersFits : WritersParams → Type 0
WritersFits q =
    IsAccount q.current_account_id
    × IsKey q.key
    × IsLimit q.limit
    × IfGiven IsAccount q.predecessor_id
    × CursorFits IsAccount q.after_account q.offset

abbrev pub TimelineFits : TimelineParams → Type 0
TimelineFits q =
    IsAccount q.predecessor_id
    × IsAccount q.current_account_id
    × IsLimit q.limit
    × RangeFits q.from_block q.to_block
    × IfGiven (λ c. len c ≤ 1024) q.cursor

-- A scan is for a whole listing: no key, no offset.
abbrev pub AccountsFits : AccountsQueryParams → Type 0
AccountsFits q =
    IfGiven IsAccount q.contract_id
    × IsLimit (scan_limit q)
    × IfGiven IsKey q.key
    × CursorFits IsAccount q.after_account q.offset

abbrev pub ContractsFits : ContractsQueryParams → Type 0
ContractsFits q = (1 ≤ q.limit) × IfGiven IsAccount q.after_contract

abbrev pub NotNegative : ℤ → Type 0
NotNegative z = is_negative z ≡ false

abbrev pub DiffFits : DiffParams → Type 0
DiffFits q =
    IsAccount q.predecessor_id
    × IsAccount q.current_account_id
    × IsKey q.key
    × NotNegative q.block_height_a
    × NotNegative q.block_height_b

abbrev pub BatchFits : BatchQuery → Type 0
BatchFits q =
    IsAccount q.predecessor_id
    × IsAccount q.current_account_id
    × (1 ≤ length q.keys)
    × (length q.keys ≤ 100)
    × All (λ k. Sized 1024 k) q.keys

abbrev pub EdgesFits : EdgesParams → Type 0
EdgesFits q =
    Sized 256 q.edge_type
    × IsAccount q.target
    × IsLimit q.limit
    × CursorFits IsAccount q.after_source q.offset

abbrev pub EdgesCountFits : EdgesCountParams → Type 0
EdgesCountFits q = Sized 256 q.edge_type × IsAccount q.target

abbrev pub WatchFits : WatchParams → Type 0
WatchFits q = IsAccount q.predecessor_id × IsAccount q.current_account_id × IsKey q.key
