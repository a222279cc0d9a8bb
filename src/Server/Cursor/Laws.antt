-- ===== src/Server/Cursor/Laws.antt =====
-- A cursor that the server hands out is the one that it reads back.
use key_manager.Base.{ℕ, ◌≤◌, ◌≡◌, some, [], ◌∷◌, ok, arith, All}
use key_manager.Base.Text.{Str}
use key_manager.Base.Text.Laws.{Lacks, split_once-append}
use key_manager.Base.Decimal.{ℤ, pos, i64_max, parse_i64, show, show_int}
use key_manager.Base.Decimal.RoundTrip.{IsDigit, Digits, show-Digits, parse_i64-show_int, IsI64}
use key_manager.Server.Cursor.{
  parse_history_cursor, parse_timeline_cursor, history_cursor, timeline_cursor,
}

digits-Lacks : (s : Str) → All IsDigit s → Lacks b':' s
digits-Lacks [] h = tt
digits-Lacks (c ∷ s) (h, hs) = (omega arith, digits-Lacks s hs)

show-Lacks : (n : ℕ) → Lacks b':' (show n)
show-Lacks n = from_Digits (show n) (show-Digits n)
  where
    from_Digits : (s : Str) → Digits s → Lacks b':' s
    from_Digits [] h = absurd h
    from_Digits (c ∷ s) h = digits-Lacks (c ∷ s) h

parse_height : (n : ℕ) → n ≤ i64_max → parse_i64 (show n) ≡ some (pos n)
parse_height n h = unfold show_int in parse_i64-show_int (pos n) h

-- The cursor that a page of a key's history ends with is read back as the block height and the
-- order id of its last entry, for every height and order id in the range of i64.
pub parse_history_cursor-history_cursor :
    (height : ℕ) (order_id : ℤ)
    → height ≤ i64_max
    → IsI64 order_id
    → parse_history_cursor (history_cursor height order_id) ≡ ok (pos height, order_id)
unfolding parse_history_cursor history_cursor
parse_history_cursor-history_cursor height oid h k =
    rw (split_once-append b':' (show height) (show_int oid) (show-Lacks height))
      (rw (parse_height height h) (rw (parse_i64-show_int oid k)))

-- The cursor that a page of a timeline ends with is read back as the block height and the key of
-- its last entry, for every height in the range of i64 and every key, one that holds colons too.
pub parse_timeline_cursor-timeline_cursor :
    (height : ℕ) (key : Str)
    → height ≤ i64_max
    → parse_timeline_cursor (timeline_cursor height key) ≡ ok (pos height, key)
unfolding parse_timeline_cursor timeline_cursor
parse_timeline_cursor-timeline_cursor height key h =
    rw (split_once-append b':' (show height) key (show-Lacks height)) (rw (parse_height height h))
