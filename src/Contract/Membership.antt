-- ===== src/Contract/Membership.antt =====
-- `check_membership` of contract/src/lib.rs.
pub mod Laws
use key_manager.Base.{Bool, ◌||◌, List, [], ◌∷◌}
use key_manager.Base.Text.{Str, codes, split, starts_with, ends_with}

-- `split('.').next().unwrap_or("")`
abbrev pub first_or_empty : List Str → Str
first_or_empty [] = []
first_or_empty (p ∷ ps) = p

unfoldable pub check_membership : Str → Str → Bool
check_membership group_id account_id =
    starts_with group_id (first_or_empty (split b'.' account_id))
    || ends_with account_id (codes ".near")
    || ends_with account_id (codes ".testnet")
