-- ===== src/Server/Handlers/Lists.antt =====
-- The other handlers of fastkv-server/src/handlers.rs, but for the watch.
use key_manager.Base.{
  ℕ, Bool, true, false, Option, none, some, List, [], ◌∷◌, Result, ok, err, last, min,
  if◌then◌else◌,
}
use key_manager.Base.Text.{Str, codes}
use key_manager.Server.Action.{pure, from_result, ◌>>=◌, ◌>>◌}
use key_manager.Server.Validate.{validate_account_id, max_scan_limit}
use key_manager.Server.Models.{KvEntry, dropped_to_option}
use key_manager.Server.Models.Replies.{BatchResultItem}
use key_manager.Server.Models.Params.{
  AccountsQueryParams, ContractsQueryParams, BatchQuery, EdgesParams, EdgesCountParams,
}
use key_manager.Server.RedisDb.{
  EdgeSourceEntry, health_check, get_kv_last, query_accounts_by_contract, query_all_accounts,
  query_contracts_by_account, query_all_contracts, query_edges, count_edges,
  get_indexer_block_height,
}
use key_manager.Server.Handlers.{
  Services, AppState, Handler, HttpRequest, HttpResponse, Body, Value, require_db, with_db,
  query_db, respond_ok, throttle_scan,
}
use key_manager.Server.Handlers.Checks.{
  accounts_checks, scan_limit, contracts_checks, batch_checks, edges_checks, edges_count_checks,
  account,
}

module _ {W E : Type 0} (services : Services W E) where
  open services use {redis, queries, chain_id}

  abbrev Reply : Type 0
  Reply = HttpResponse (Value services)

  abbrev degraded : Reply
  degraded = record {
    status_code = 503;
    body =
        Body.health (record { status = codes "degraded"; database = some (codes "unavailable") });
  }

  unfoldable pub health_check_handler : Handler W Reply
  health_check_handler state =
      if state.has_db
      then (let checked = health_check redis queries chain_id state.world in
          let reply : Reply = elim checked.0 [
            | ok _ ↦ respond_ok (Body.health (record { status = codes "ok"; database = none }))
            | err e ↦ degraded
          ] in
          (ok reply, record state { world = checked.1 }))
      else (ok degraded, state)

  abbrev pub names_page : List Str → Bool → Bool → ℕ → Reply
  names_page found has_more truncated dropped = respond_ok (
      Body.names (record {
        items = found;
        meta = record {
          has_more = has_more;
          truncated = truncated;
          next_cursor = last found;
          dropped_rows = dropped_to_option dropped;
        };
      }))

  -- Only a scan, a request without a contract, is throttled.
  unfoldable pub throttle_accounts : HttpRequest → AccountsQueryParams → Handler W (Unit {0})
  throttle_accounts req query = elim query.contract_id [
    | some cid ↦ pure tt
    | none ↦ throttle_scan req
  ]

  unfoldable pub list_accounts : Option Str → AccountsQueryParams → Handler W Reply
  list_accounts (some cid) query = do
    found ← query_db (
        query_accounts_by_contract redis queries chain_id cid query.key (scan_limit query)
          query.offset query.after_account)
    let (accounts, has_more, truncated, dropped) = found in
        pure (names_page accounts has_more truncated dropped)
  list_accounts none query = do
    found ←
        query_db (query_all_accounts redis queries chain_id (scan_limit query) query.after_account)
    let (accounts, has_more, dropped) = found in pure (names_page accounts has_more false dropped)

  unfoldable pub accounts_handler : HttpRequest → AccountsQueryParams → Handler W Reply
  accounts_handler req query = do
    from_result (accounts_checks query)
    throttle_accounts req query
    require_db
    list_accounts query.contract_id query

  -- The account is checked, or the scan throttled, behind the database.
  unfoldable pub list_contracts :
      Option Str → HttpRequest → ContractsQueryParams → Handler W (List Str × Bool × ℕ)
  list_contracts (some account_id) req query = do
    from_result (validate_account_id account_id account)
    query_db (
        query_contracts_by_account redis queries chain_id account_id
          (min query.limit max_scan_limit) query.after_contract)
  list_contracts none req query = do
    throttle_scan req
    query_db (
        query_all_contracts redis queries chain_id (min query.limit max_scan_limit)
          query.after_contract)

  unfoldable pub contracts_handler : HttpRequest → ContractsQueryParams → Handler W Reply
  contracts_handler req query = with_db (contracts_checks query) (do
    found ← list_contracts query.predecessor_id req query
    let (contracts, has_more, dropped) = found in
        pure (names_page contracts has_more false dropped))

  -- What a lookup of a batch becomes. It never fails: its error is an item.
  unfoldable pub item_of : Str → Result (Option KvEntry) E → BatchResultItem
  item_of key (ok (some entry)) = record {
    key = key;
    value = some entry.value;
    found = true;
    error = none;
  }
  item_of key (ok none) = record { key = key; value = none; found = false; error = none }
  item_of key (err e) = record {
    key = key;
    value = none;
    found = false;
    error = some (codes "Lookup failed");
  }

  unfoldable pub batch_item : Str → Str → Str → AppState W → BatchResultItem × AppState W
  unfolding item_of
  batch_item predecessor_id current_account_id key state =
      if state.has_db
      then (let looked =
            get_kv_last redis queries chain_id predecessor_id current_account_id key state.world in
          (item_of key looked.0, record state { world = looked.1 }))
      else (
        record {
          key = key;
          value = none;
          found = false;
          error = some (codes "Database unavailable");
        },
        state,
      )

  -- The code runs ten at a time and collects them in order; here they run in order.
  unfoldable pub batch_items : Str → Str → List Str → AppState W → List BatchResultItem × AppState W
  unfolding batch_item
  batch_items predecessor_id current_account_id [] state = ([], state)
  batch_items predecessor_id current_account_id (key ∷ keys) state =
      let (item, state') = batch_item predecessor_id current_account_id key state in
      let (items, state'') = batch_items predecessor_id current_account_id keys state' in
      (item ∷ items, state'')

  unfoldable pub batch_kv_handler : BatchQuery → Handler W Reply
  batch_kv_handler body = with_db (batch_checks body) (do
    λ state.
        let (items, state') =
          batch_items body.predecessor_id body.current_account_id body.keys state in
        (ok (respond_ok (Body.batch (record { item = items }))), state'))

  abbrev last_source : List EdgeSourceEntry → Option Str
  last_source sources = elim (last sources) [ none ↦ none | some e ↦ some e.source ]

  unfoldable pub edges_handler : EdgesParams → Handler W Reply
  edges_handler query = with_db (edges_checks query) (do
    found ← query_db (
        query_edges redis queries chain_id query.edge_type query.target query.limit query.offset
          query.after_source)
    let (sources, has_more, dropped) = found in
        pure (
          respond_ok (
            Body.edges (record {
              items = sources;
              meta = record {
                has_more = has_more;
                truncated = false;
                next_cursor = last_source sources;
                dropped_rows = none;
              };
            }))))

  unfoldable pub edges_count_handler : EdgesCountParams → Handler W Reply
  edges_count_handler query = with_db (edges_count_checks query) (do
    count ← query_db (count_edges redis queries chain_id query.edge_type query.target)
    pure (
        respond_ok (
          Body.edges_count (record {
            item = record { edge_type = query.edge_type; target = query.target; count = count };
          }))))

  -- `.await.ok().flatten()`
  unfoldable pub status_handler : HttpRequest → Handler W Reply
  status_handler req state =
      let read =
        if state.has_db
        then get_indexer_block_height redis queries chain_id state.world
        else (ok none, state.world) in
      let block : Option ℕ = elim read.0 [ ok height ↦ height | err e ↦ none ] in
      (
        ok (respond_ok (Body.status (record { indexer_block = block; timestamp = req.utc_now }))),
        record state { world = read.1 },
      )
