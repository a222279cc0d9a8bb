-- ===== src/Server/Startup/Tests.antt =====
-- A start with two failures, and a response of a handler.
use key_manager.Base.{◌≡◌, refl, true, some, [], ◌∷◌, ltb, if◌then◌else◌, All}
use key_manager.Base.Text.{codes}
use key_manager.Base.Decimal.{show}
use key_manager.Server.Startup.{
  connected, unhealthy, failed, run, start, Headers, header, wrap, caching, content_type_options,
  frame_options, indexer_block,
}
use key_manager.Server.Startup.Connects.{IsWait, run_connects}
use key_manager.Server.Startup.Headers.{Caching, wrap_lem}

run_connects_example :
    ((run (failed ∷ unhealthy ∷ connected ∷ failed ∷ []) start).1.has_db ≡ true)
    × All IsWait (run (failed ∷ unhealthy ∷ connected ∷ failed ∷ []) start).0
run_connects_example = run_connects (failed ∷ unhealthy ∷ connected ∷ failed ∷ []) refl

waits : (run (failed ∷ unhealthy ∷ connected ∷ failed ∷ []) start).0 ≡ 0 ∷ 10 ∷ 20 ∷ 5 ∷ []
unfolding run
waits = refl

abbrev streaming : Headers
streaming = (caching, codes "no-cache") ∷ []

wrap_lem_example :
    let wrapped = wrap 77 true (codes "/v1/kv/watch") 200 streaming in
    (header wrapped content_type_options ≡ some (codes "nosniff"))
    × (header wrapped frame_options ≡ some (codes "DENY"))
    × Caching true (codes "/v1/kv/watch") 200 (header streaming caching) (header wrapped caching)
    × (header wrapped indexer_block
        ≡ (if ltb 0 77 then some (show 77) else header streaming indexer_block))
wrap_lem_example = wrap_lem 77 true (codes "/v1/kv/watch") 200 streaming
