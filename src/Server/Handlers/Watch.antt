-- ===== src/Server/Handlers/Watch.antt =====
-- `watch_kv_handler` of fastkv-server/src/handlers.rs: the slots of the watches and the stream of
-- events of one.
pub mod Events
pub mod Slots
mod Tests
use key_manager.Base.{
  unwrap_or, ℕ, ◌+◌, ◌-◌, Bool, true, false, Option, none, some, List, [], ◌∷◌, ◌++◌, Result, ok,
  err, ltb, leb, min, max, if◌then◌else◌,
}
use key_manager.Base.Text.{Str, codes}
use key_manager.Base.Decimal.{show, parse_u64}
use key_manager.Server.Errors.{ApiError}
use key_manager.Server.Action.{from_result, ◌>>=◌, ◌>>◌}
use key_manager.Server.Models.{KvEntry}
use key_manager.Server.Models.Replies.{WatchEvent}
use key_manager.Server.Models.Params.{WatchParams}
use key_manager.Server.RedisDb.{get_kv}
use key_manager.Server.Handlers.{
  Services, AppState, Handler, HttpRequest, HttpResponse, Body, Value, require_db, respond_ok,
}
use key_manager.Server.Handlers.Checks.{watch_checks}

abbrev pub max_concurrent_watches : ℕ
max_concurrent_watches = 100

abbrev pub min_poll_interval : ℕ
min_poll_interval = 2

abbrev pub max_poll_interval : ℕ
max_poll_interval = 30

abbrev pub too_many_watches : ApiError
too_many_watches = ApiError.too_many_requests (codes "Too many active watch connections")

abbrev clamp : ℕ → ℕ → ℕ → ℕ
clamp n low high = max low (min n high)

-- `.and_then(|s| s.parse().ok())`
abbrev pub last_block : Option Str → Option ℕ
last_block none = none
last_block (some s) = parse_u64 s

-- What the stream sends, and its text.
pub data Message : Type 0 where
  change : ℕ → Str → Message
  poll_failed : Message
  unavailable : Message
  heartbeat : Message

newline : Str
newline = 10 ∷ []

unfoldable pub message_text : Message → Str
unfolding newline
message_text (change block payload) =
    codes "id: "
    ++ (show block
        ++ (newline
            ++ (codes "event: change"
                ++ (newline ++ (codes "data: " ++ (payload ++ (newline ++ newline)))))))
message_text poll_failed =
    codes "event: error"
    ++ (newline ++ (codes "data: {\"error\":\"poll_failed\"}" ++ (newline ++ newline)))
message_text unavailable =
    codes "event: error"
    ++ (newline ++ (codes "data: {\"error\":\"database_unavailable\"}" ++ (newline ++ newline)))
message_text heartbeat = codes ": heartbeat" ++ (newline ++ newline)

-- A round of the loop: one of the two timers.
pub data Tick : Type 0 where
  poll_interval heartbeat_interval : Tick

module _ {W E : Type 0} (services : Services W E) where
  open services use {redis, queries, chain_id, event_to_string}

  -- A slot is claimed, given back when all are taken, and given back by the guard when the database
  -- is not there; otherwise the guard moves into the stream.
  unfoldable pub claim_watch : Handler W (Unit {0})
  claim_watch state =
      let prev = state.watch_count in
      let claimed = record state { watch_count = prev + 1 } in
      if leb max_concurrent_watches prev
      then (err too_many_watches, record claimed { watch_count = claimed.watch_count - 1 })
      else (ok tt, claimed)

  -- the drop of the guard
  unfoldable pub release_watch : AppState W → AppState W
  release_watch state = record state { watch_count = state.watch_count - 1 }

  unfoldable pub watch_kv_handler :
      WatchParams → HttpRequest → Handler W (HttpResponse (Value services))
  unfolding claim_watch release_watch require_db
  watch_kv_handler query req = do
    from_result (watch_checks query)
    claim_watch
    λ state. elim (require_db state).0 [
      | err e ↦ (err e, release_watch state)
      | ok _ ↦ (
        ok (
            respond_ok (
              Body.event_stream (last_block req.last_event_id)
                (clamp query.interval min_poll_interval max_poll_interval))),
        state,
      )
    ]

  abbrev event_of : KvEntry → WatchEvent
  event_of entry = record {
    key = entry.key;
    value = entry.value;
    block_height = entry.block_height;
    block_timestamp = entry.block_timestamp;
    predecessor_id = entry.predecessor_id;
    current_account_id = entry.current_account_id;
  }

  -- An entry that is found: a message for a new one, and the height that is known from then on.
  unfoldable pub report : ℕ → KvEntry → List Message × ℕ
  report last_known_block entry =
      if ltb last_known_block entry.block_height
      then (
        elim (event_to_string (event_of entry)) [
          | ok payload ↦ change entry.block_height payload ∷ []
          | err e ↦ []
        ],
        entry.block_height,
      )
      else ([], last_known_block)

  -- A poll that the database answered.
  unfoldable pub poll_result : ℕ → Result (Option KvEntry) E → List Message × ℕ
  unfolding report
  poll_result last_known_block (ok none) = ([], last_known_block)
  poll_result last_known_block (ok (some entry)) = report last_known_block entry
  poll_result last_known_block (err e) = (poll_failed ∷ [], last_known_block)

  unfoldable pub tick : WatchParams → Tick → ℕ → AppState W → (List Message × ℕ) × AppState W
  unfolding poll_result
  tick query heartbeat_interval last_known_block state = ((heartbeat ∷ [], last_known_block), state)
  tick query poll_interval last_known_block state =
      if state.has_db
      then (let found =
            get_kv redis queries chain_id query.predecessor_id query.current_account_id query.key
              state.world in
          (poll_result last_known_block found.0, record state { world = found.1 }))
      else ((unavailable ∷ [], last_known_block), state)

  -- The rounds of a stream, each in the state that it finds: what it sends, and what it knows then.
  unfoldable pub stream : WatchParams → List (Tick × AppState W) → ℕ → List Message × ℕ
  unfolding tick
  stream query [] last_known_block = ([], last_known_block)
  stream query ((timer, state) ∷ rounds) last_known_block =
      let round = (tick query timer last_known_block state).0 in
      let rest = stream query rounds round.1 in (round.0 ++ rest.0, rest.1)

  -- A stream that starts with the header `Last-Event-ID`.
  unfoldable pub start_stream : WatchParams → Option Str → List (Tick × AppState W) → List Message
  unfolding stream
  start_stream query header rounds = (stream query rounds (unwrap_or (last_block header) 0)).0
