-- ===== src/Server/Handlers/Routes/Tests.antt =====
-- Requests to the services of the tests.
use key_manager.Base.{inl, ◌≡◌, refl, true, false, none, some, List, [], ◌∷◌, ok, arith}
use key_manager.Base.Text.{codes, len}
use key_manager.Server.Action.{◌>>=◌}
use key_manager.Server.Validate.{
  validate_account_id, validate_key, validate_limit, validate_cursor_or_offset,
}
use key_manager.Server.Models.{parse_field_set, should_decode, dropped_to_option}
use key_manager.Server.RedisDb.{get_kv, query_accounts_by_contract}
use key_manager.Server.Validate.Laws.{Passes}
use key_manager.Server.Models.Params.{GetParams, AccountsQueryParams, BatchQuery}
use key_manager.Server.Models.Replies.{BatchResultItem}
use key_manager.Server.Handlers.{Body, respond_ok, with_db, require_db, query_db}
use key_manager.Server.Handlers.Checks.{
  get_checks, accounts_checks, check_scan, batch_checks, check_keys,
}
use key_manager.Server.Handlers.Entries.{get_kv_handler}
use key_manager.Server.Handlers.Lists.{
  accounts_handler, list_accounts, throttle_accounts, names_page, batch_kv_handler,
}
use key_manager.Server.Handlers.Batch.{Answers, batch_kv_handler_total}
use key_manager.Server.Handlers.Routes.{Route, serve}
use key_manager.Server.Handlers.Routes.Guards.{Fits, serve-Fits}
use key_manager.Server.Handlers.Routes.Bounds.{ListsAtMost}
use key_manager.Server.Handlers.Routes.Listed.{serve-listed}
use key_manager.Server.Handlers.Small.{services, request, running}

abbrev color : GetParams
color = record {
  predecessor_id = codes "alice.near";
  current_account_id = codes "kv.near";
  key = codes "color";
  fields = none;
  value_format = none;
}

two_commands : (serve services request (Route.get color) running).1.world ≡ 2
unfolding serve get_kv_handler with_db require_db ◌>>=◌ query_db get_checks validate_account_id
    validate_key len get_kv parse_field_set should_decode
two_commands = refl

serve-Fits_example : Fits (Route.get color) × (true ≡ true)
serve-Fits_example =
    serve-Fits services request (Route.get color) running
      (inl (λ e. ground (arith, e, two_commands)))

abbrev writers_of : AccountsQueryParams
writers_of = record {
  contract_id = some (codes "kv.near");
  key = none;
  limit = 10;
  offset = 0;
  after_account = none;
}

two_names :
    (serve services request (Route.accounts writers_of) running).0
    ≡ ok (names_page services (codes "a.near" ∷ codes "b.near" ∷ []) false false 0)
unfolding serve accounts_handler list_accounts throttle_accounts require_db ◌>>=◌ query_db
    accounts_checks check_scan validate_account_id validate_limit validate_cursor_or_offset len
    query_accounts_by_contract dropped_to_option
two_names = refl

serve-listed_example :
    ListsAtMost services.json 1000
      (names_page services (codes "a.near" ∷ codes "b.near" ∷ []) false false 0).body
serve-listed_example = serve-listed services request (Route.accounts writers_of) running _ two_names

abbrev colors : BatchQuery
colors = record {
  predecessor_id = codes "alice.near";
  current_account_id = codes "kv.near";
  keys = codes "color" ∷ codes "shape" ∷ [];
}

colors_pass : Passes (batch_checks colors)
unfolding batch_checks check_keys validate_account_id len
colors_pass = refl

batch_kv_handler_total_example :
    (items : List BatchResultItem) × ((batch_kv_handler services colors running).0
      ≡ ok (respond_ok (Body.batch (record { item = items }))))
    × Answers services
        (codes "alice.near")
        (codes "kv.near")
        (codes "color" ∷ codes "shape" ∷ [])
        running.world
        items
batch_kv_handler_total_example = batch_kv_handler_total services colors running colors_pass refl
