-- ===== src/Server/Validate.antt =====
-- The checks on request parameters in fastkv-server/src/handlers.rs and models.rs.
pub mod Laws
use key_manager.Base.{
  ℕ, ◌+◌, Bool, true, false, ◌&&◌, ◌||◌, not, Option, none, some, List, [], ◌∷◌, ◌++◌, Result, ok,
  err, ◌>>=◌, ◌>>◌, refuse, ltb, leb, ◌==◌, if◌then◌else◌, is_empty, length, any, all,
}
use key_manager.Base.Text.{Str, codes, len, ◌==ₛ◌}
use key_manager.Base.Decimal.{ℤ, pos, negsuc, show}
use key_manager.Server.Errors.{ApiError}

abbrev pub max_offset : ℕ
max_offset = 100_000

abbrev pub max_prefix_length : ℕ
max_prefix_length = 1000

abbrev pub max_account_id_length : ℕ
max_account_id_length = 256

abbrev pub max_key_length : ℕ
max_key_length = 10000

abbrev pub max_batch_keys : ℕ
max_batch_keys = 100

abbrev pub max_batch_key_length : ℕ
max_batch_key_length = 1024

abbrev pub max_edge_type_length : ℕ
max_edge_type_length = 256

abbrev pub max_scan_limit : ℕ
max_scan_limit = 1000

abbrev pub max_cursor_length : ℕ
max_cursor_length = 1024

-- A check: nothing, or the error of the response.
abbrev pub Check : Type 0
Check = Result (Unit {0}) ApiError

abbrev pub passed : Check
passed = ok tt

unfoldable pub validate_account_id : Str → Str → Check
validate_account_id value name = do
  refuse (is_empty value) (ApiError.invalid_parameter (name ++ codes ": cannot be empty"))
  refuse (ltb max_account_id_length (len value)) (
      ApiError.invalid_parameter
        (name ++ (codes ": cannot exceed " ++ (show max_account_id_length ++ codes " characters"))))
  passed

unfoldable pub validate_key : Str → Str → ℕ → Check
validate_key value name max_len = do
  refuse (is_empty value) (ApiError.invalid_parameter (name ++ codes ": cannot be empty"))
  refuse (ltb max_len (len value)) (
      ApiError.invalid_parameter
        (name ++ (codes ": cannot exceed " ++ (show max_len ++ codes " characters"))))
  passed

unfoldable pub validate_offset : ℕ → Check
validate_offset offset = do
  refuse (ltb max_offset offset)
      (ApiError.invalid_parameter (codes "offset: cannot exceed " ++ show max_offset))
  passed

unfoldable pub validate_limit : ℕ → Check
validate_limit limit = do
  refuse (limit == 0 || ltb 1000 limit)
      (ApiError.invalid_parameter (codes "limit: must be between 1 and 1000"))
  passed

unfoldable pub validate_cursor_or_offset : Option Str → Str → ℕ → (Str → Str → Check) → Check
unfolding validate_offset
validate_cursor_or_offset (some c) cursor_name offset validate_cursor_fn = do
  validate_cursor_fn c cursor_name
  refuse (ltb 0 offset)
      (ApiError.invalid_parameter (cursor_name ++ codes ": cannot combine with offset"))
  passed
validate_cursor_or_offset none cursor_name offset validate_cursor_fn = do
  validate_offset offset
  passed

-- `eq_ignore_ascii_case`
abbrev pub to_ascii_lowercase : ℕ → ℕ
to_ascii_lowercase c = if leb b'A' c && leb c b'Z' then c + 32 else c

unfoldable pub eq_ignore_ascii_case : Str → Str → Bool
eq_ignore_ascii_case [] [] = true
eq_ignore_ascii_case [] (d ∷ t) = false
eq_ignore_ascii_case (c ∷ s) [] = false
eq_ignore_ascii_case (c ∷ s) (d ∷ t) =
    (to_ascii_lowercase c == to_ascii_lowercase d) && eq_ignore_ascii_case s t

unfoldable pub validate_order : Str → Check
unfolding eq_ignore_ascii_case
validate_order order = do
  refuse
      (not (eq_ignore_ascii_case order (codes "asc"))
        && not (eq_ignore_ascii_case order (codes "desc")))
      (ApiError.invalid_parameter (codes "order: must be 'asc' or 'desc'"))
  passed

abbrev pub is_negative : ℤ → Bool
is_negative (pos n) = false
is_negative (negsuc n) = true

abbrev pub ltb_int : ℤ → ℤ → Bool
ltb_int (pos a) (pos b) = ltb a b
ltb_int (pos a) (negsuc b) = false
ltb_int (negsuc a) (pos b) = true
ltb_int (negsuc a) (negsuc b) = ltb b a

-- `is_some_and`
abbrev is_some_and : Option ℤ → (ℤ → Bool) → Bool
is_some_and none p = false
is_some_and (some z) p = p z

-- `if let (Some(from), Some(to))`: the range is empty
abbrev is_reversed : Option ℤ → Option ℤ → Bool
is_reversed (some from) (some to) = ltb_int to from
is_reversed _ _ = false

unfoldable pub validate_block_range : Option ℤ → Option ℤ → Check
validate_block_range from_block to_block = do
  refuse (is_some_and from_block is_negative || is_some_and to_block is_negative)
      (ApiError.invalid_parameter (codes "from_block/to_block: cannot be negative"))
  refuse (is_reversed from_block to_block)
      (ApiError.invalid_parameter (codes "from_block: must be <= to_block"))
  passed

unfoldable pub validate_prefix : Option Str → Check
validate_prefix none = passed
validate_prefix (some p) = do
  refuse (is_empty p)
      (ApiError.invalid_parameter (codes "key_prefix: cannot be empty (omit to skip filtering)"))
  refuse (ltb max_prefix_length (len p)) (
      ApiError.invalid_parameter
        (codes "key_prefix: cannot exceed " ++ (show max_prefix_length ++ codes " characters")))
  passed
