-- ===== src/Server/Prefix.antt =====
-- `compute_prefix_end` and `effective_offset` of fastkv-server/src/scylladb.rs. CQL compares texts by
-- their UTF-8 bytes, which is the order of their scalar values.
pub mod Laws
use key_manager.Base.{
  ℕ, Bool, true, false, ◌&&◌, ◌||◌, Option, none, some, List, [], ◌∷◌, ◌++◌, ltb, ◌==◌, not,
}
use key_manager.Base.Text.{Str}

unfoldable pub compute_prefix_end : Str → Str
compute_prefix_end prefix = prefix ++ 0x10ffff ∷ []

unfoldable pub effective_offset : Option Str → ℕ → ℕ
effective_offset none offset = offset
effective_offset (some cursor) offset = 0

-- the order of texts
unfoldable pub before : Str → Str → Bool
before s [] = false
before [] (d ∷ t) = true
before (c ∷ s) (d ∷ t) = ltb c d || ((c == d) && before s t)

-- `WHERE key >= ? AND key < ?` of the query for the keys with a prefix
unfoldable pub in_prefix_range : Str → Str → Bool
unfolding before compute_prefix_end
in_prefix_range prefix key = not (before key prefix) && before key (compute_prefix_end prefix)

-- Which keys the four queries of `query_kv_with_pagination` select, by the prefix and the cursor.
unfoldable pub selects : Option Str → Option Str → Str → Bool
unfolding in_prefix_range
selects (some prefix) (some cursor) key =
    before cursor key && before key (compute_prefix_end prefix)
selects (some prefix) none key = in_prefix_range prefix key
selects none (some cursor) key = before cursor key
selects none none key = true
