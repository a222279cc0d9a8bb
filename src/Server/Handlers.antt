-- ===== src/Server/Handlers.antt =====
-- fastkv-server/src/handlers.rs: the state of the server, and what the handlers share.
pub mod Checks
pub mod Fits
pub mod Passing
pub mod Routes
pub mod Social
pub mod Watch
pub mod Entries
pub mod Lists
pub mod Batch
pub mod Small
use key_manager.Base.{
  ℕ, ◌+◌, Bool, true, false, ◌&&◌, ◌||◌, not, Option, none, some, List, [], ◌∷◌, ◌++◌, map, Result,
  ok, err, map_err, is_empty, is_some, last, unwrap_or, if◌then◌else◌,
}
use key_manager.Base.Text.{Str, codes, split, ◌==ₛ◌}
use key_manager.Server.Errors.{ApiError, from_anyhow}
use key_manager.Server.Validate.{Check}
use key_manager.Server.Action.{Action, pure, from_result, ◌>>=◌, ◌>>◌}
use key_manager.Server.Json.{Json}
use key_manager.Server.Throttle.{Throttle, check_scan_throttle}
use key_manager.Server.Models.{
  KvEntry, PaginationMeta, FieldSet, trim, to_json_with_fields, decode_value_in_json,
}
use key_manager.Server.Models.Replies.{
  PaginatedResponse, DataResponse, TreeResponse, HealthResponse, DiffResponse, BatchResultItem,
  StatusResponse, EdgesCountResponse, WatchEvent, IndexEntry, SocialFollowResponse,
}
use key_manager.Server.RedisDb.{Queries, EdgeSourceEntry}
use key_manager.Indexer.RedisDb.{Redis}

-- What the handlers call: serde_json, what serde derives for entries and events, Redis, and the
-- value of SOCIAL_CONTRACT.
pub record Services (W E : Type 0) : Type 1 where
  pub json : Json
  pub serialize : KvEntry → Result json.Value Str
  pub event_to_string : WatchEvent → Result Str Str
  pub redis : Redis W E
  pub queries : Queries W E
  pub chain_id : Str
  pub social_contract : Str

-- The shared state, with the world of Redis. `db` of the code is absent until the first connection,
-- and is never cleared.
pub record AppState (W : Type 0) : Type 0 where
  pub has_db : Bool
  pub scan_throttle : Throttle
  pub watch_count : ℕ
  pub world : W

-- What a handler reads of a request beside its parameters: headers that are text, addresses, and
-- the instants at which it runs, of the monotonic clock and of the wall clock.
pub record HttpRequest : Type 0 where
  pub forwarded_for : Option Str
  pub last_event_id : Option Str
  pub realip_remote_addr : Option Str
  pub peer_addr : Option Str
  pub now : ℕ
  pub utc_now : Str

-- The body of a reply, over the values of JSON. A stream starts behind a block, polls at an interval.
pub data Body (V : Type 0) : Type 0 where
  entry : DataResponse (Option KvEntry) → Body V
  entry_json : DataResponse V → Body V
  page : PaginatedResponse KvEntry → Body V
  page_json : PaginatedResponse V → Body V
  tree : TreeResponse V → Body V
  names : PaginatedResponse Str → Body V
  diff : DataResponse (DiffResponse KvEntry) → Body V
  diff_json : DataResponse (DiffResponse V) → Body V
  batch : DataResponse (List BatchResultItem) → Body V
  edges : PaginatedResponse EdgeSourceEntry → Body V
  edges_count : DataResponse EdgesCountResponse → Body V
  health : HealthResponse → Body V
  status : StatusResponse → Body V
  event_stream : Option ℕ → ℕ → Body V
  social_object : V → Body V
  social_index : PaginatedResponse (IndexEntry V) → Body V
  social_follow : SocialFollowResponse → Body V

pub record HttpResponse (V : Type 0) : Type 0 where
  pub status_code : ℕ
  pub body : Body V

abbrev pub respond_ok : {V : Type 0} → Body V → HttpResponse V
respond_ok body = record { status_code = 200; body = body }

-- A handler changes the shared state and ends with a reply or an error.
abbrev pub Handler : Type 0 → Type 0 → Type 0
Handler W A = Action (AppState W) ApiError A

unfoldable pub require_db : {W : Type 0} → Handler W (Unit {0})
require_db state = (if state.has_db then ok tt else err ApiError.database_unavailable, state)

-- A handler checks its parameters, then asks for the database, and then goes on.
unfoldable pub with_db : {W A : Type 0} → Check → Handler W A → Handler W A
unfolding require_db
with_db checks rest = from_result checks >> (require_db >> rest)

-- `query(…).await?`: an error of the database becomes one of the API.
unfoldable pub query_db : {W E A : Type 0} → Action W E A → Handler W A
unfolding from_anyhow
query_db run state = (
  map_err (λ e. from_anyhow []) (run state.world).0,
  record state { world = (run state.world).1 },
)

-- `trim` and the filter on the last of the addresses
abbrev usable : Str → Option Str
usable s = if is_empty s || s ==ₛ codes "unknown" then none else some s

abbrev or_else : Option Str → Option Str → Option Str
or_else none other = other
or_else (some s) other = some s

abbrev and_then : Option Str → (Str → Option Str) → Option Str
and_then none f = none
and_then (some s) f = f s

-- `rsplit(',').next()` is the last piece.
unfoldable pub extract_client_ip : HttpRequest → Str
extract_client_ip req =
    unwrap_or
      (or_else
        (and_then req.forwarded_for (λ s. and_then (last (split b',' s)) (λ t. usable (trim t))))
        req.realip_remote_addr)
      (unwrap_or req.peer_addr (codes "unknown"))

-- `check_scan_throttle(&app_state, &extract_client_ip(&req))?`
unfoldable pub throttle_scan : {W : Type 0} → HttpRequest → Handler W (Unit {0})
throttle_scan req state =
    let checked = check_scan_throttle state.scan_throttle (extract_client_ip req) req.now in
    (checked.0, record state { scan_throttle = checked.1 })

module _ {W E : Type 0} (services : Services W E) where
  abbrev pub Value : Type 0
  Value = services.json.Value

  -- An entry as JSON, with its value decoded on request.
  unfoldable pub entry_json_of : Option FieldSet → Bool → KvEntry → Value
  entry_json_of fields decode e =
      let json = to_json_with_fields services.json services.serialize e fields in
      if decode then decode_value_in_json services.json json else json

  unfoldable pub respond_paginated :
      List KvEntry → PaginationMeta → Option FieldSet → Bool → HttpResponse Value
  unfolding entry_json_of
  respond_paginated entries meta fields decode =
      if is_some fields || decode
      then respond_ok (
          Body.page_json
            (record { items = map (entry_json_of fields decode) entries; meta = meta }))
      else respond_ok (Body.page (record { items = entries; meta = meta }))
