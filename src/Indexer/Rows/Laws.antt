-- ===== src/Indexer/Rows/Laws.antt =====
-- The conversions of single columns.
use key_manager.Base.{ℕ, ◌≤◌, ◌≡◌, refl, Option, none, some, ok, arith}
use key_manager.Base.Text.{Str}
use key_manager.Base.Decimal.{pos}
use key_manager.Indexer.Rows.{Ids, signed, parsed, transposed, map_option}

-- The documented behaviour of near's types: parsing undoes printing.
pub record IsStable (ids : Ids) : Type 0 where
  pub hash_parses : (h : ids.Hash) → ids.hash_parse (ids.hash_to_string h) ≡ some h
  pub account_parses : (a : ids.Account) → ids.account_parse (ids.account_to_string a) ≡ some a

pub signed_fits : (max n : ℕ) → n ≤ max → signed max n ≡ some (pos n)
unfolding signed
signed_fits max n h = ground (arith, h)

pub signed_panics : (max n : ℕ) → (n ≤ max → ⊥) → signed max n ≡ none
unfolding signed
signed_panics max n h = ground (arith, h)

pub parsed_back {ℓ} :
    {A : Type ℓ} (field : Str) (parse : Str → Option A) (s : Str) (a : A)
    → parse s ≡ some a
    → parsed field parse s ≡ ok a
unfolding parsed
parsed_back field parse s a h = ground (arith, h)

pub transposed_back :
    (ids : Ids) (stable : IsStable ids) (field : Str) (h : Option ids.Hash)
    → transposed (parsed field ids.hash_parse) (map_option ids.hash_to_string h) ≡ ok h
unfolding transposed
transposed_back ids stable field none = refl
transposed_back ids stable field (some h) =
    ground (arith, parsed_back field ids.hash_parse (ids.hash_to_string h) h (stable.hash_parses h))
