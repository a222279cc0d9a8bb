-- ===== src/Server/Handlers/Entries.antt =====
-- The handlers of fastkv-server/src/handlers.rs that reply with entries.
use key_manager.Base.{
  ℕ, Bool, false, ◌||◌, Option, none, some, List, map, is_some, last, if◌then◌else◌,
}
use key_manager.Base.Text.{Str, codes, ◌==ₛ◌}
use key_manager.Server.Action.{pure, from_result, ◌>>=◌}
use key_manager.Server.Tree.{build_tree}
use key_manager.Server.Models.{
  KvEntry, PaginationMeta, parse_field_set, should_decode, dropped_to_option, bigint_to_u64,
}
use key_manager.Server.Models.Params.{
  GetParams, QueryParams, WritersParams, HistoryParams, DiffParams, TimelineParams,
}
use key_manager.Server.RedisDb.{
  get_kv, query_kv_with_pagination, query_writers, get_kv_at_block, get_kv_history, get_kv_timeline,
}
use key_manager.Server.Handlers.{
  Services, Handler, HttpResponse, Body, Value, with_db, query_db, respond_ok, respond_paginated,
  entry_json_of,
}
use key_manager.Server.Handlers.Checks.{
  get_checks, query_checks, history_checks, writers_checks, diff_checks, timeline_checks,
}

abbrev option_map : {A B : Type 0} → (A → B) → Option A → Option B
option_map f none = none
option_map f (some a) = some (f a)

module _ {W E : Type 0} (services : Services W E) where
  open services use {redis, queries, chain_id}

  abbrev Reply : Type 0
  Reply = HttpResponse (Value services)

  unfoldable pub get_kv_handler : GetParams → Handler W Reply
  get_kv_handler query = with_db (get_checks query) (do
    entry ←
        query_db
          (get_kv redis queries chain_id query.predecessor_id query.current_account_id query.key)
    fields ← from_result (parse_field_set query.fields)
    decode ← from_result (should_decode query.value_format)
    pure (elim entry [
      | none ↦ respond_ok (Body.entry (record { item = none }))
      | some e ↦
          if is_some fields || decode
          then respond_ok
              (Body.entry_json (record { item = entry_json_of services fields decode e }))
          else respond_ok (Body.entry (record { item = some e }))
    ]))

  -- `fields` and `value_format` are read behind the query, and then the page is written.
  unfoldable pub reply_with_page :
      List KvEntry → PaginationMeta → Option Str → Option Str → Handler W Reply
  unfolding respond_paginated
  reply_with_page entries meta fields value_format = do
    fields ← from_result (parse_field_set fields)
    decode ← from_result (should_decode value_format)
    pure (respond_paginated services entries meta fields decode)

  -- A page of a query; its cursor is the key of its last entry.
  unfoldable pub key_page : QueryParams → List KvEntry → Bool → ℕ → Handler W Reply
  key_page query entries has_more dropped =
      reply_with_page entries
        (record {
          has_more = has_more;
          truncated = false;
          next_cursor = option_map (λ e. e.key) (last entries);
          dropped_rows = dropped_to_option dropped;
        })
        query.fields query.value_format

  -- The reply to a query, in the format that is asked for.
  unfoldable pub tree_or_page : Option Str → QueryParams → List KvEntry → Bool → ℕ → Handler W Reply
  tree_or_page none query entries has_more dropped = key_page query entries has_more dropped
  tree_or_page (some format) query entries has_more dropped =
      if format ==ₛ codes "tree"
      then pure (
          respond_ok (
            Body.tree (record {
              tree = build_tree services.json (map (λ e. (e.key, e.value)) entries);
              has_more = has_more;
            })))
      else key_page query entries has_more dropped

  unfoldable pub query_kv_handler : QueryParams → Handler W Reply
  query_kv_handler query = with_db (query_checks query) (do
    found ← query_db (query_kv_with_pagination redis queries chain_id query)
    let (entries, has_more, dropped) = found in
        tree_or_page query.format query entries has_more dropped)

  unfoldable pub history_kv_handler : HistoryParams → Handler W Reply
  history_kv_handler query = with_db (history_checks query) (do
    found ← query_db (get_kv_history redis queries chain_id query)
    let (entries, has_more, truncated, next_cursor) = found in
        reply_with_page entries
          (record {
            has_more = has_more;
            truncated = false;
            next_cursor = next_cursor;
            dropped_rows = none;
          })
          query.fields query.value_format)

  unfoldable pub writers_handler : WritersParams → Handler W Reply
  writers_handler query = with_db (writers_checks query) (do
    found ← query_db (query_writers redis queries chain_id query)
    let (entries, has_more, truncated, dropped) = found in
        reply_with_page entries
          (record {
            has_more = has_more;
            truncated = truncated;
            next_cursor = option_map (λ e. e.predecessor_id) (last entries);
            dropped_rows = dropped_to_option dropped;
          })
          query.fields query.value_format)

  -- The code runs the two reads at the same time; here the first comes first.
  unfoldable pub diff_kv_handler : DiffParams → Handler W Reply
  diff_kv_handler query = with_db (diff_checks query) (do
    a ← query_db (
        get_kv_at_block redis queries chain_id query.predecessor_id query.current_account_id
          query.key (bigint_to_u64 query.block_height_a))
    b ← query_db (
        get_kv_at_block redis queries chain_id query.predecessor_id query.current_account_id
          query.key (bigint_to_u64 query.block_height_b))
    fields ← from_result (parse_field_set query.fields)
    decode ← from_result (should_decode query.value_format)
    pure (
        if is_some fields || decode
        then respond_ok (
            Body.diff_json (record {
              item = record {
                a = option_map (entry_json_of services fields decode) a;
                b = option_map (entry_json_of services fields decode) b;
              };
            }))
        else respond_ok (Body.diff (record { item = record { a = a; b = b } }))))

  unfoldable pub timeline_kv_handler : TimelineParams → Handler W Reply
  timeline_kv_handler query = with_db (timeline_checks query) (do
    found ← query_db (get_kv_timeline redis queries chain_id query)
    let (entries, has_more, truncated, dropped, next_cursor) = found in
        reply_with_page entries
          (record {
            has_more = has_more;
            truncated = false;
            next_cursor = next_cursor;
            dropped_rows = none;
          })
          query.fields query.value_format)
