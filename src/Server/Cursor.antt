-- ===== src/Server/Cursor.antt =====
-- The pagination cursors of fastkv-server: `parse_history_cursor` and `parse_timeline_cursor` of
-- src/models.rs, and the `next_cursor` that src/scylladb.rs prints.
pub mod Laws
use key_manager.Base.{
  ℕ, Bool, true, false, Option, none, some, [], ◌∷◌, ◌++◌, Result, ok, err, ◌>>=◌, if◌then◌else◌,
}
use key_manager.Base.Text.{Str, codes, split_once}
use key_manager.Base.Decimal.{ℤ, pos, negsuc, parse_i64, show, show_int}
use key_manager.Server.Errors.{ApiError}
use key_manager.Server.Validate.{is_negative}

-- `ok_or_else`, and `map_err` on a parse
abbrev pub or_invalid {ℓ} : {A : Type ℓ} → Option A → Str → Result A ApiError
or_invalid none msg = err (ApiError.invalid_parameter msg)
or_invalid (some a) msg = ok a

unfoldable pub parse_history_cursor : Str → Result (ℤ × ℤ) ApiError
parse_history_cursor cursor = do
  parts ←
      or_invalid (split_once b':' cursor) (codes "cursor: expected format block_height:order_id")
  block_height ←
      or_invalid (parse_i64 parts.0) (codes "cursor: block_height must be a non-negative integer")
  order_id ← or_invalid (parse_i64 parts.1) (codes "cursor: order_id must be an integer")
  if is_negative block_height
      then err (ApiError.invalid_parameter (codes "cursor: block_height must be non-negative"))
      else ok (block_height, order_id)

unfoldable pub parse_timeline_cursor : Str → Result (ℤ × Str) ApiError
parse_timeline_cursor cursor = do
  parts ← or_invalid (split_once b':' cursor) (codes "cursor: expected format block_height:key")
  block_height ←
      or_invalid (parse_i64 parts.0) (codes "cursor: block_height must be a non-negative integer")
  if is_negative block_height
      then err (ApiError.invalid_parameter (codes "cursor: block_height must be non-negative"))
      else ok (block_height, parts.1)

-- `format!("{}:{oid}", e.block_height)`, with `block_height : u64` and `oid : i64`
unfoldable pub history_cursor : ℕ → ℤ → Str
history_cursor block_height oid = show block_height ++ b':' ∷ show_int oid

-- `format!("{}:{key}", e.block_height)`
unfoldable pub timeline_cursor : ℕ → Str → Str
timeline_cursor block_height key = show block_height ++ b':' ∷ key
