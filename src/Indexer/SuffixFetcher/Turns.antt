-- ===== src/Indexer/SuffixFetcher/Turns.antt =====
-- What a turn of the fetcher sends, and the end of range that it reports.
use key_manager.Base.{
  subst, All, map, leb, ltb, ◌&&◌, ◌||◌, refl, Bool-cases, if◌then◌else◌, ℕ, ◌+◌, ◌≤◌, ◌≡◌, sym, ap,
  ◌∙◌, inl, inr, Bool, true, false, none, some, List, [], ◌∷◌, ok, arith, Option-cases, unwrap_or,
}
use key_manager.Base.Text.{Str}
use key_manager.Base.Text.Laws.{Lacks}
use key_manager.Base.Decimal.{u64_max}
use key_manager.Indexer.RedisDb.{FastData, fastdata_key}
use key_manager.Indexer.SuffixFetcher.{
  Source, Replies, shutdown, page, Progress, stream_suffix_data, fetch_range, start_turn,
}
use key_manager.Indexer.SuffixFetcher.Keys.{key_height-fastdata_key}
use key_manager.Indexer.SuffixFetcher.Stream.{
  IsReliable, all_keys, collect, last_height, stream_all, stream_cut,
}

-- The key of a datum.
abbrev pub key_of : Str → FastData → Str
key_of chain_id fd = fastdata_key chain_id fd.suffix fd.block_height fd.receipt_id

-- The database holds a datum under its own key.
abbrev pub IsHeld : {E : Type 0} → Source E → Str → FastData → Type 0
IsHeld source chain_id fd =
    (json : Str) × (source.get (key_of chain_id fd) ≡ ok (some json))
    × (source.from_str json ≡ some fd)
    × Lacks b':' fd.suffix
    × (fd.block_height ≤ u64_max)

-- The data with a height in the range.
abbrev pub in_range : ℕ → ℕ → List FastData → List FastData
in_range from to [] = []
in_range from to (fd ∷ fds) =
    let rest = in_range from to fds in
    if leb from fd.block_height && leb fd.block_height to then fd ∷ rest else rest

module _ {E : Type 0} (source : Source E) (reliable : IsReliable source) where
  fetch_first :
      (from to : ℕ) (replies : Replies E) (attempts : List (Replies E)) (b : Bool) (p : Progress)
      → stream_suffix_data source from to replies
          (record { sent = []; had_data = false; last_block = none })
        ≡ (ok b, p)
      → fetch_range source from to (replies ∷ attempts) [] ≡ (some p.last_block, p.sent)
  unfolding fetch_range
  fetch_first from to replies attempts b p h = ground (arith, h)

  turn_checkpoint :
      (from to height : ℕ) (attempts : List (Replies E)) (sent : List FastData) (running : Bool)
      → from ≤ to
      → fetch_range source from to attempts [] ≡ (some (some height), sent)
      → start_turn source from (record {
        last_block_height = ok (some to);
        attempts = attempts;
        is_running = running;
        takes_end = true;
      })
        ≡ record { sent = sent; end_of_range = some height; next_from = some (height + 1) }
  unfolding start_turn
  turn_checkpoint from to height attempts sent running h e = ground (arith, h, e)

  turn_to_the_end :
      (from to : ℕ) (attempts : List (Replies E)) (sent : List FastData)
      → from ≤ to
      → fetch_range source from to attempts [] ≡ (some none, sent)
      → start_turn source from (record {
        last_block_height = ok (some to);
        attempts = attempts;
        is_running = true;
        takes_end = true;
      })
        ≡ record { sent = sent; end_of_range = some to; next_from = some (to + 1) }
  unfolding start_turn
  turn_to_the_end from to attempts sent h e = ground (arith, h, e)

  -- What a complete scan sends, by the keys that it yields.
  pub start_turn_complete :
      (from to : ℕ) (replies : Replies E) (keys : List Str) (attempts : List (Replies E))
      → from ≤ to
      → all_keys replies ≡ some keys
      → (checkpoint : ℕ) × (checkpoint
          ≡ unwrap_or (last_height source from to none (collect source from to keys)) to)
        × (start_turn source from (record {
          last_block_height = ok (some to);
          attempts = replies ∷ attempts;
          is_running = true;
          takes_end = true;
        })
            ≡ record {
              sent = collect source from to keys;
              end_of_range = some checkpoint;
              next_from = some (checkpoint + 1);
            })
  start_turn_complete from to replies keys attempts h all =
      let fds = collect source from to keys in
      let (b, p, streamed, sent, block) =
        stream_all source from to reliable replies keys
          (record { sent = []; had_data = false; last_block = none }) all in
      let fetched : fetch_range source from to (replies ∷ attempts) []
          ≡ (some (last_height source from to none fds), fds) =
        fetch_first from to replies attempts b p streamed
        ∙ ap (λ l. (some l, p.sent)) block
        ∙ ap (λ l. (some (last_height source from to none fds), l)) sent in
      elim (Option-cases (last_height source from to none fds)) [
        | inl no_data ↦ (
          to,
          ap (λ l. unwrap_or l to) (sym no_data),
          turn_to_the_end from to (replies ∷ attempts) fds h
              (fetched ∙ ap (λ l. (some l, fds)) no_data),
        )
        | inr (height, data') ↦ (
          height,
          ap (λ l. unwrap_or l to) (sym data'),
          turn_checkpoint from to height (replies ∷ attempts) fds true h
              (fetched ∙ ap (λ l. (some l, fds)) data'),
        )
      ]

  collect-in_range :
      (chain_id : Str) (from to : ℕ) (stored : List FastData)
      → Lacks b':' chain_id
      → All (IsHeld source chain_id) stored
      → collect source from to (map (key_of chain_id) stored) ≡ in_range from to stored
  collect-in_range chain_id from to [] lacks h = refl
  collect-in_range chain_id from to (fd ∷ stored) lacks ((json, got, read, suffix, fits), hs) =
      let height =
        key_height-fastdata_key chain_id fd.suffix fd.block_height fd.receipt_id lacks suffix
          fits in
      let rest = collect-in_range chain_id from to stored lacks hs in
      elim (Bool-cases (ltb fd.block_height from || ltb to fd.block_height)) [
        | inl outside ↦ ground (arith, height, got, read, rest, outside)
        | inr inside ↦ ground (arith, height, got, read, rest, inside)
      ]

  -- With a receiver that takes everything and a database that answers, for a chain whose id has no
  -- colon, on a turn in which the flag stays set and the end of the range can be sent: if the first
  -- attempt scans the keys of a list of fast data, each of which is held under its own key, has a
  -- suffix without a colon and a height that is a u64, the turn sends exactly those of them, in their order, whose own
  -- height is between the height it starts from and the last processed one, both included, and reports
  -- an end of range: the height of the last of them, or else the last processed height. The next
  -- turn starts from the height after.
  pub start_turn-in_range :
      (chain_id : Str) (from to : ℕ) (stored : List FastData) (replies : Replies E)
      (attempts : List (Replies E))
      → from ≤ to
      → Lacks b':' chain_id
      → All (IsHeld source chain_id) stored
      → all_keys replies ≡ some (map (key_of chain_id) stored)
      → (checkpoint : ℕ) × (checkpoint
          ≡ unwrap_or (last_height source from to none (in_range from to stored)) to)
        × (start_turn source from (record {
          last_block_height = ok (some to);
          attempts = replies ∷ attempts;
          is_running = true;
          takes_end = true;
        })
            ≡ record {
              sent = in_range from to stored;
              end_of_range = some checkpoint;
              next_from = some (checkpoint + 1);
            })
  start_turn-in_range chain_id from to stored replies attempts h lacks held all =
      let keys = map (key_of chain_id) stored in
      let same = collect-in_range chain_id from to stored lacks held in
      subst
        (λ fds.
          (checkpoint : ℕ) × (checkpoint ≡ unwrap_or (last_height source from to none fds) to)
          × (start_turn source from (record {
            last_block_height = ok (some to);
            attempts = replies ∷ attempts;
            is_running = true;
            takes_end = true;
          })
              ≡ record {
                sent = fds;
                end_of_range = some checkpoint;
                next_from = some (checkpoint + 1);
              }))
        same (start_turn_complete from to replies keys attempts h all)

  -- With such a receiver and database: if the flag is cleared after a page of the scan in which some
  -- fast data was sent, the turn reports as the end of the range the
  -- height of the last fast data of that page, whatever keys the scan had not come to.
  pub start_turn-shutdown :
      (from to : ℕ) (keys : List Str) (attempts : List (Replies E)) (height : ℕ)
      → from ≤ to
      → last_height source from to none (collect source from to keys) ≡ some height
      → start_turn source from (record {
        last_block_height = ok (some to);
        attempts = page keys shutdown ∷ attempts;
        is_running = false;
        takes_end = true;
      })
        ≡ record {
          sent = collect source from to keys;
          end_of_range = some height;
          next_from = some (height + 1);
        }
  start_turn-shutdown from to keys attempts height h l =
      let fds = collect source from to keys in
      let (p, streamed, sent, block) =
        stream_cut source from to reliable keys
          (record { sent = []; had_data = false; last_block = none }) in
      turn_checkpoint from to height (page keys shutdown ∷ attempts) fds false h (
        fetch_first from to (page keys shutdown) attempts true p streamed
        ∙ ap (λ t. (some t, p.sent)) (block ∙ l)
        ∙ ap (λ t. (some (some height), t)) sent)
