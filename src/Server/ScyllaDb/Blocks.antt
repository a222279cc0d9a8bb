-- ===== src/Server/ScyllaDb/Blocks.antt =====
-- The queries of fastkv-server/src/scylladb.rs over the entries of the past: `get_kv_at_block`,
-- `get_kv_history` and `get_kv_timeline`.
use key_manager.Base.{
  ℕ, Bool, true, ◌&&◌, not, Option, none, some, List, [], ◌∷◌, Result, ok, err, ◌>>=◌, map, map_err,
  last, unwrap_or, if◌then◌else◌,
}
use key_manager.Base.Text.{Str, codes}
use key_manager.Base.Decimal.{ℤ, pos, i64_max}
use key_manager.Server.Errors.{ApiError}
use key_manager.Server.Validate.{ltb_int, eq_ignore_ascii_case}
use key_manager.Server.Models.{KvEntry}
use key_manager.Server.Models.Params.{HistoryParams, TimelineParams}
use key_manager.Server.Cursor.{
  parse_history_cursor, parse_timeline_cursor, history_cursor, timeline_cursor,
}
use key_manager.Server.Page.{collect_page}
use key_manager.Server.Prefix.{before}
use key_manager.Server.ScyllaDb.{Session, Stream, stateless}

abbrev pub max_int : ℤ → ℤ → ℤ
max_int a b = if ltb_int a b then b else a

abbrev pub min_int : ℤ → ℤ → ℤ
min_int a b = if ltb_int b a then b else a

abbrev pub eq_int : ℤ → ℤ → Bool
eq_int a b = not (ltb_int a b) && not (ltb_int b a)

-- `Some(c) if !c.is_empty()`
abbrev pub given : Option Str → Option Str
given none = none
given (some []) = none
given (some (c ∷ s)) = some (c ∷ s)

-- The range of blocks that the statement asks for, from the block of the cursor on.
unfoldable pub block_range : Bool → Option ℤ → Option ℤ → Option ℤ → ℤ × ℤ
block_range is_asc from_block to_block none =
    (unwrap_or from_block (pos 0), unwrap_or to_block (pos i64_max))
block_range is_asc from_block to_block (some cb) =
    if is_asc
    then (max_int (unwrap_or from_block (pos 0)) cb, unwrap_or to_block (pos i64_max))
    else (unwrap_or from_block (pos 0), min_int (unwrap_or to_block (pos i64_max)) cb)

-- The row of the cursor's block is left out if its order id is not behind the cursor.
unfoldable pub history_behind : Bool → Option (ℤ × ℤ) → ℤ → ℤ → Bool
history_behind is_asc none block_height order_id = true
history_behind is_asc (some (cb, co)) block_height order_id =
    if eq_int block_height cb
    then (if is_asc then ltb_int co order_id else ltb_int order_id co)
    else true

-- The keys of a block descend in the ascending timeline and ascend in the descending one.
unfoldable pub timeline_behind : Bool → Option (ℤ × Str) → ℤ → Str → Bool
unfolding before
timeline_behind is_asc none block_height key = true
timeline_behind is_asc (some (cb, ck)) block_height key =
    if eq_int block_height cb then (if is_asc then before key ck else before ck key) else true

module _ {E : Type 0} (session : Session E) (display : ApiError → Str) where
  open session use {
    KvHistoryRow, history_block_height, history_order_id, history_entry, KvTimelineRow,
    timeline_block_height, timeline_key, timeline_entry, anyhow, select_at_block, history_asc,
    history_desc, timeline_asc, timeline_desc,
  }

  -- The last row that can be read.
  unfoldable pub last_ok : Option KvHistoryRow → Stream KvHistoryRow E → Option KvHistoryRow
  last_ok found [] = found
  last_ok found (ok row ∷ rows) = last_ok (some row) rows
  last_ok found (err e ∷ rows) = last_ok found rows

  unfoldable pub get_kv_at_block : Str → Str → Str → ℤ → Result (Option KvEntry) E
  unfolding last_ok
  get_kv_at_block predecessor_id current_account_id key block_height = do
    rows ← select_at_block predecessor_id current_account_id key block_height
    ok (elim (last_ok none rows) [ none ↦ none | some row ↦ some (history_entry row) ])

  -- The error of a cursor becomes its text.
  unfoldable pub read_cursor :
      {A : Type 0} → (Str → Result A ApiError) → Option Str → Result (Option A) E
  read_cursor parse none = ok none
  read_cursor parse (some c) = do
    position ← map_err (λ e. anyhow (display e)) (parse c)
    ok (some position)

  unfoldable pub history_item : Bool → Option (ℤ × ℤ) → KvHistoryRow → Option (KvEntry × ℤ)
  unfolding history_behind
  history_item is_asc cursor row =
      if history_behind is_asc cursor (history_block_height row) (history_order_id row)
      then some (history_entry row, history_order_id row)
      else none

  abbrev block_of : {B : Type 0} → Option (ℤ × B) → Option ℤ
  block_of none = none
  block_of (some position) = some position.0

  unfoldable pub get_kv_history : HistoryParams → Result (List KvEntry × Bool × ℕ × Option Str) E
  unfolding block_range history_item read_cursor history_cursor parse_history_cursor
  get_kv_history params = do
    cursor ← read_cursor parse_history_cursor (given params.cursor)
    (let is_asc = eq_ignore_ascii_case params.order (codes "asc") in
        let range = block_range is_asc params.from_block params.to_block (block_of cursor) in
        do
          stream ←
              (if is_asc then history_asc else history_desc) params.predecessor_id
                params.current_account_id params.key range.0 range.1
          (let page =
                collect_page params.limit 0 none (stateless (history_item is_asc cursor)) tt
                  stream in
              ok (
                map (λ item. item.0) page.items,
                page.has_more,
                page.dropped_rows,
                elim (last page.items) [
                  | none ↦ none
                  | some item ↦ some (history_cursor item.0.block_height item.1)
                ],
              )))

  unfoldable pub timeline_item : Bool → Option (ℤ × Str) → KvTimelineRow → Option (KvEntry × Str)
  unfolding timeline_behind
  timeline_item is_asc cursor row =
      if timeline_behind is_asc cursor (timeline_block_height row) (timeline_key row)
      then some (timeline_entry row, timeline_key row)
      else none

  unfoldable pub get_kv_timeline : TimelineParams → Result (List KvEntry × Bool × ℕ × Option Str) E
  unfolding block_range timeline_item read_cursor timeline_cursor parse_timeline_cursor
  get_kv_timeline params = do
    cursor ← read_cursor parse_timeline_cursor (given params.cursor)
    (let is_asc = eq_ignore_ascii_case params.order (codes "asc") in
        let range = block_range is_asc params.from_block params.to_block (block_of cursor) in
        do
          stream ←
              (if is_asc then timeline_asc else timeline_desc) params.predecessor_id
                params.current_account_id range.0 range.1
          (let page =
                collect_page params.limit 0 none (stateless (timeline_item is_asc cursor)) tt
                  stream in
              ok (
                map (λ item. item.0) page.items,
                page.has_more,
                page.dropped_rows,
                elim (last page.items) [
                  | none ↦ none
                  | some item ↦ some (timeline_cursor item.0.block_height item.1)
                ],
              )))
