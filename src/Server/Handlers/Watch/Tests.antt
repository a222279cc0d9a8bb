-- ===== src/Server/Handlers/Watch/Tests.antt =====
-- A stream of the services of the tests, and a run of claims.
use key_manager.Base.{ℕ, ◌≤◌, ◌≡◌, refl, some, List, [], ◌∷◌, ◌++◌, arith, unwrap_or}
use key_manager.Base.Text.{codes}
use key_manager.Base.Decimal.{parse_u64, parse_digits, scan_digits, show, u64_max}
use key_manager.Server.Action.{◌>>=◌}
use key_manager.Server.RedisDb.{get_kv, from_stored}
use key_manager.Server.Models.Params.{WatchParams}
use key_manager.Server.Handlers.{AppState}
use key_manager.Server.Handlers.Watch.{
  poll_result, report, Tick, poll_interval, heartbeat_interval, change, heartbeat, start_stream,
  last_block,
}
use key_manager.Server.Handlers.Watch.Events.{
  Rising, last_id, Writes, start_stream-Rising, start_stream-append,
}
use key_manager.Server.Handlers.Watch.Slots.{
  watches, none_active, none_yet, then_step, admit, drop_guard, Counted, Steps-Counted,
}
use key_manager.Server.Handlers.Small.{services, running}

abbrev color : WatchParams
color = record {
  predecessor_id = codes "alice.near";
  current_account_id = codes "kv.near";
  key = codes "color";
  interval = 5;
}

-- The entry of block 9 is new to a client that has seen block 4, once.
abbrev rounds : List (Tick × AppState ℕ)
rounds = (poll_interval, running) ∷ (heartbeat_interval, running) ∷ (poll_interval, running) ∷ []

events_are_texts : Writes services
events_are_texts event = (event.value, refl)

sends_once :
    start_stream services color (some (codes "4")) rounds ≡ change 9 (codes "red") ∷ heartbeat ∷ []
unfolding start_stream get_kv from_stored poll_result report parse_u64 parse_digits scan_digits
    ◌>>=◌
sends_once = refl

start_stream-Rising_example :
    Rising
      (unwrap_or (last_block (some (codes "4"))) 0)
      (start_stream services color (some (codes "4")) rounds)
start_stream-Rising_example =
    start_stream-Rising services events_are_texts color (some (codes "4")) rounds

seen :
    last_id
      (unwrap_or (last_block (some (codes "4"))) 0)
      (start_stream services color (some (codes "4")) rounds)
    ≤ u64_max
unfolding start_stream get_kv from_stored poll_result report parse_u64 parse_digits scan_digits
    ◌>>=◌
seen = omega arith

start_stream-append_example :
    start_stream services color (some (codes "4")) (rounds ++ rounds)
    ≡ start_stream services color (some (codes "4")) rounds
      ++ start_stream services color
          (some (
            show (
              last_id
                (unwrap_or (last_block (some (codes "4"))) 0)
                (start_stream services color (some (codes "4")) rounds))))
          rounds
start_stream-append_example =
    start_stream-append services events_are_texts color (some (codes "4")) rounds rounds seen

Steps-Counted_example : Counted (watches 1 1 0)
Steps-Counted_example =
    Steps-Counted 3 (watches 1 1 0)
      (then_step 2 (watches 2 2 0) (watches 1 1 0)
        (then_step 1 (watches 1 1 0) (watches 2 2 0)
          (then_step 0 none_active (watches 1 1 0) none_yet (admit 0 0 0 (omega arith)))
          (admit 1 1 0 (omega arith)))
        (drop_guard 2 1 0))
      (omega arith)
