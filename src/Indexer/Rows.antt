-- ===== src/Indexer/Rows.antt =====
-- The rows of the ScyllaDB tables: fastdata-indexer/scylladb/src/types.rs and
-- fastdata-indexer/fastfs-sub-indexer/src/scylla_types.rs. Hashes and account ids are near's types,
-- a parameter. `From` panics at a number that its column does not hold: `none`.
pub mod Blobs
pub mod Laws
use key_manager.Base.{ℕ, Option, none, some, Result, ok, err, ◌>>=◌, leb, if◌then◌else◌}
use key_manager.Base.Text.{Str, Bytes, codes}
use key_manager.Base.Decimal.{ℤ, pos, negsuc}

pub record Ids : Type 1 where
  pub Hash : Type 0
  pub Account : Type 0
  pub hash_to_string : Hash → Str
  pub hash_parse : Str → Option Hash
  pub account_to_string : Account → Str
  pub account_parse : Str → Option Account

-- The error of a conversion: the field, and what it held.
pub data RowError : Type 0 where
  unparsable : Str → Str → RowError
  is_below_zero : Str → ℤ → RowError

abbrev pub i32_max : ℕ
i32_max = 2147483647

abbrev pub i64_max : ℕ
i64_max = 9223372036854775807

-- `i32::try_from(u32)` and `i64::try_from(u64)`
unfoldable pub signed : ℕ → ℕ → Option ℤ
signed max n = if leb n max then some (pos n) else none

-- `u32::try_from(i32)` and `u64::try_from(i64)`
unfoldable pub unsigned : Str → ℤ → Result ℕ RowError
unsigned field (pos n) = ok n
unsigned field (negsuc n) = err (is_below_zero field (negsuc n))

unfoldable pub parsed {ℓ} : {A : Type ℓ} → Str → (Str → Option A) → Str → Result A RowError
parsed field parse s = elim (parse s) [ none ↦ err (unparsable field s) | some a ↦ ok a ]

infixl 5 ◌>>=?◌
abbrev pub ◌>>=?◌ {ℓ κ} : {A : Type ℓ} {B : Type κ} → Option A → (A → Option B) → Option B
none >>=? f = none
some a >>=? f = f a

-- `map(…).transpose()?`
unfoldable pub transposed {ℓ} :
    {A : Type ℓ} → (Str → Result A RowError) → Option Str → Result (Option A) RowError
transposed f none = ok none
transposed f (some s) = elim (f s) [ ok a ↦ ok (some a) | err e ↦ err e ]

abbrev pub map_option {ℓ κ} : {A : Type ℓ} {B : Type κ} → (A → B) → Option A → Option B
map_option f none = none
map_option f (some a) = some (f a)
