-- ===== src/Server/Startup.antt =====
-- fastkv-server/src/main.rs: the task that connects to Redis, and the headers of every response.
pub mod Connects
pub mod Headers
mod Tests
use key_manager.Base.{
  ℕ, ◌*◌, Bool, true, false, not, ◌&&◌, ◌||◌, Option, none, some, List, [], ◌∷◌, min, ltb, leb,
  is_some, if◌then◌else◌,
}
use key_manager.Base.Text.{Str, codes, starts_with, ◌==ₛ◌}
use key_manager.Base.Decimal.{show}

-- The variables of the loop; `has_db` is the shared connection.
pub record Reconnect : Type 0 where
  pub has_db : Bool
  pub delay_secs : ℕ
  pub is_initial : Bool

-- How `RedisDb::new` and the health check behind it go.
pub data Attempt : Type 0 where
  connected unhealthy failed : Attempt

abbrev pub reconnect_max_secs : ℕ
reconnect_max_secs = 300

abbrev pub start : Reconnect
start = record { has_db = false; delay_secs = 5; is_initial = true }

-- What the attempt makes of the variables.
unfoldable pub attempt_once : Attempt → Reconnect → Reconnect
attempt_once connected task = record task { has_db = true; delay_secs = 5 }
attempt_once unhealthy task = record task {
  delay_secs = min (task.delay_secs * 2) reconnect_max_secs;
}
attempt_once failed task = record task { delay_secs = min (task.delay_secs * 2) reconnect_max_secs }

-- A round of the loop: the seconds that it sleeps first, and the variables behind it.
unfoldable pub reconnect : Attempt → Reconnect → ℕ × Reconnect
unfolding attempt_once
reconnect attempt task = (
  if task.is_initial then 0 else task.delay_secs,
  (let task' = record task { is_initial = false } in
      if task.has_db then record task' { delay_secs = 5 } else attempt_once attempt task'),
)

unfoldable pub run : List Attempt → Reconnect → List ℕ × Reconnect
unfolding reconnect
run [] task = ([], task)
run (attempt ∷ attempts) task =
    let round = reconnect attempt task in
    let rest = run attempts round.1 in (round.0 ∷ rest.0, rest.1)

-- Headers by their names in lower case; `insert` replaces.
abbrev pub Headers : Type 0
Headers = List (Str × Str)

unfoldable pub header : Headers → Str → Option Str
header [] name = none
header ((other, value) ∷ headers) name =
    let rest = header headers name in if other ==ₛ name then some value else rest

unfoldable pub insert : Headers → Str → Str → Headers
insert [] name value = (name, value) ∷ []
insert ((other, old) ∷ headers) name value =
    let rest = insert headers name value in
    if other ==ₛ name then (name, value) ∷ headers else (other, old) ∷ rest

-- `is_success`
abbrev pub is_success : ℕ → Bool
is_success status = leb 200 status && ltb status 300

-- The caching of a path, empty for none.
unfoldable pub cache_control : Str → Str
unfolding starts_with ◌==ₛ◌
cache_control path =
    if path ==ₛ codes "/health" || path ==ₛ codes "/v1/status"
    then codes "no-cache"
    else if starts_with path (codes "/v1/")
    then codes "public, max-age=5"
    else []

abbrev pub no_text : Str → Bool
no_text [] = true
no_text (c ∷ s) = false

abbrev pub indexer_block : Str
indexer_block = codes "x-indexer-block"

abbrev pub caching : Str
caching = codes "cache-control"

abbrev pub content_type_options : Str
content_type_options = codes "x-content-type-options"

abbrev pub frame_options : Str
frame_options = codes "x-frame-options"

unfoldable pub with_block : ℕ → Headers → Headers
with_block h headers = if ltb 0 h then insert headers indexer_block (show h) else headers

unfoldable pub with_caching : Bool → Str → ℕ → Headers → Headers
with_caching is_get path status headers =
    if is_get
      && is_success status
      && not (is_some (header headers caching))
      && not (no_text (cache_control path))
    then insert headers caching (cache_control path)
    else headers

-- What the middleware makes of the headers of a response, with the cached height of the indexer.
unfoldable pub wrap : ℕ → Bool → Str → ℕ → Headers → Headers
wrap h is_get path status headers =
    insert
      (insert (with_caching is_get path status (with_block h headers)) content_type_options
        (codes "nosniff"))
      frame_options (codes "DENY")
