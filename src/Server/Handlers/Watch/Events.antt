-- ===== src/Server/Handlers/Watch/Events.antt =====
-- The events of a stream are in the order of the blocks, and none is lost or repeated on reconnecting.
use key_manager.Base.{
  ℕ, ◌≤◌, ◌<◌, ◌≡◌, refl, sym, ap, ◌∙◌, subst, inl, inr, Option, none, some, List, [], ◌∷◌, ◌++◌,
  Result, ok, err, arith, Bool-cases, unwrap_or, ltb, append_assoc,
}
use key_manager.Base.Text.{Str}
use key_manager.Base.Decimal.{show, u64_max}
use key_manager.Base.Decimal.RoundTrip.{parse_u64-show}
use key_manager.Server.Models.{KvEntry}
use key_manager.Server.Models.Replies.{WatchEvent}
use key_manager.Server.Models.Params.{WatchParams}
use key_manager.Server.Handlers.{Services, AppState}
use key_manager.Server.Handlers.Watch.{
  Message, change, poll_failed, unavailable, heartbeat, Tick, poll_interval, heartbeat_interval,
  report, poll_result, tick, stream, start_stream, last_block, event_of,
}

-- The changes among messages have rising ids, the first above a block.
abbrev pub Rising : ℕ → List Message → Type 0
Rising block [] = Unit
Rising block (change id payload ∷ messages) = (block < id) × Rising id messages
Rising block (_ ∷ messages) = Rising block messages

-- The id of the last change, or the block before.
abbrev pub last_id : ℕ → List Message → ℕ
last_id block [] = block
last_id block (change id payload ∷ messages) = last_id id messages
last_id block (_ ∷ messages) = last_id block messages

Rising-append :
    (block : ℕ) (ms ns : List Message)
    → Rising block ms
    → Rising (last_id block ms) ns
    → Rising block (ms ++ ns)
Rising-append block [] ns h k = k
Rising-append block (change id payload ∷ ms) ns (up, h) k = (up, Rising-append id ms ns h k)
Rising-append block (poll_failed ∷ ms) ns h k = Rising-append block ms ns h k
Rising-append block (unavailable ∷ ms) ns h k = Rising-append block ms ns h k
Rising-append block (heartbeat ∷ ms) ns h k = Rising-append block ms ns h k

last_id-append :
    (block : ℕ) (ms ns : List Message) → last_id block (ms ++ ns) ≡ last_id (last_id block ms) ns
last_id-append block [] ns = refl
last_id-append block (change id payload ∷ ms) ns = last_id-append id ms ns
last_id-append block (poll_failed ∷ ms) ns = last_id-append block ms ns
last_id-append block (unavailable ∷ ms) ns = last_id-append block ms ns
last_id-append block (heartbeat ∷ ms) ns = last_id-append block ms ns

module _ {W E : Type 0} (services : Services W E) where
  -- Events can be written as JSON.
  abbrev pub Writes : Type 0
  Writes = (event : WatchEvent) → (payload : Str) × (services.event_to_string event ≡ ok payload)

  -- A round sends at most one change, which is new and is known from then on.
  abbrev Advances : ℕ → List Message × ℕ → Type 0
  Advances block round = Rising block round.0 × (last_id block round.0 ≡ round.1)

  report-Advances : Writes → (block : ℕ) (e : KvEntry) → Advances block (report services block e)
  unfolding report
  report-Advances writes block e =
      let (payload, text) = writes (event_of services e) in
      elim (Bool-cases (ltb block e.block_height)) [
        | inr old ↦ rw (old) (tt, refl)
        | inl new ↦ rw (new, text) ((ground (arith, new), tt), refl)
      ]

  poll_result-Advances :
      Writes
      → (block : ℕ) (found : Result (Option KvEntry) E)
      → Advances block (poll_result services block found)
  unfolding poll_result
  poll_result-Advances writes block (ok none) = (tt, refl)
  poll_result-Advances writes block (ok (some e)) = report-Advances writes block e
  poll_result-Advances writes block (err e) = (tt, refl)

  tick-Advances :
      Writes
      → (q : WatchParams) (timer : Tick) (block : ℕ) (state : AppState W)
      → Advances block (tick services q timer block state).0
  unfolding tick
  tick-Advances writes q heartbeat_interval block state = (tt, refl)
  tick-Advances writes q poll_interval block state = elim (Bool-cases state.has_db) [
    | inr off ↦ rw (off) (tt, refl)
    | inl on ↦ rw (on) (poll_result-Advances writes block _)
  ]

  stream-Advances :
      Writes
      → (q : WatchParams) (rounds : List (Tick × AppState W)) (block : ℕ)
      → Advances block (stream services q rounds block)
  unfolding stream
  stream-Advances writes q [] block = (tt, refl)
  stream-Advances writes q ((timer, state) ∷ rounds) block =
      let round = (tick services q timer block state).0 in
      let (up, known) = tick-Advances writes q timer block state in
      let later = (stream services q rounds round.1).0 in
      let (up', known') = stream-Advances writes q rounds round.1 in
      (
        Rising-append block round.0 later up (subst (λ b. Rising b later) (sym known) up'),
        last_id-append block round.0 later ∙ ap (λ b. last_id b later) known ∙ known',
      )

  stream-append :
      (q : WatchParams) (xs ys : List (Tick × AppState W)) (block : ℕ)
      → (stream services q (xs ++ ys) block).0
        ≡ (stream services q xs block).0 ++ (stream services q ys (stream services q xs block).1).0
  unfolding stream
  stream-append q [] ys block = refl
  stream-append q ((timer, state) ∷ xs) ys block =
      let round = (tick services q timer block state).0 in
      ap (λ ms. round.0 ++ ms) (stream-append q xs ys round.1)
      ∙ sym (append_assoc round.0 (stream services q xs round.1).0 _)

  abbrev start : Option Str → ℕ
  start header = unwrap_or (last_block header) 0

  -- If events can be written as JSON, the events of a stream have strictly rising ids, all above the id with which the client
  -- started, whatever the database holds or answers in each round.
  pub start_stream-Rising :
      Writes
      → (q : WatchParams) (header : Option Str) (rounds : List (Tick × AppState W))
      → Rising (unwrap_or (last_block header) 0) (start_stream services q header rounds)
  unfolding start_stream
  start_stream-Rising writes q header rounds = (stream-Advances writes q rounds (start header)).0

  -- If events can be written as JSON, a client that is cut off after some rounds and connects again with the last id that it has seen, a u64, is sent
  -- exactly what it would have been sent on the first connection: together the two streams are the
  -- uninterrupted one.
  pub start_stream-append :
      Writes
      → (q : WatchParams) (header : Option Str) (xs ys : List (Tick × AppState W))
      → let sent = start_stream services q header xs in
        let seen = last_id (unwrap_or (last_block header) 0) sent in
        seen ≤ u64_max
        → start_stream services q header (xs ++ ys)
          ≡ sent ++ start_stream services q (some (show seen)) ys
  unfolding start_stream
  start_stream-append writes q header xs ys fits =
      let (up, known) = stream-Advances writes q xs (start header) in
      let seen = last_id (start header) (stream services q xs (start header)).0 in
      let resumed : start (some (show seen)) ≡ seen = rw (parse_u64-show seen fits) refl in
      stream-append q xs ys (start header)
      ∙ ap (λ b. (stream services q xs (start header)).0 ++ (stream services q ys b).0)
          (sym known ∙ sym resumed)
