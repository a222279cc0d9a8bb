-- ===== src/Server/Handlers/Batch.antt =====
-- A batch of lookups: `batch_kv_handler` replies for each key, also when lookups fail.
use key_manager.Base.{◌≡◌, true, false, Option, none, some, List, [], ◌∷◌, Result, ok, err, arith}
use key_manager.Base.Text.{Str}
use key_manager.Server.Action.{◌>>=◌}
use key_manager.Server.Validate.Laws.{Passes}
use key_manager.Server.Models.{KvEntry}
use key_manager.Server.Models.Params.{BatchQuery}
use key_manager.Server.Models.Replies.{BatchResultItem}
use key_manager.Server.RedisDb.{get_kv_last}
use key_manager.Server.Handlers.{Services, AppState, Body, require_db, with_db, respond_ok}
use key_manager.Server.Handlers.Checks.{batch_checks}
use key_manager.Server.Handlers.Lists.{item_of, batch_item, batch_items, batch_kv_handler}

-- The item of a key by what its lookup gave: an entry, nothing, or an error with some text.
pub data IsItem {E : Type 0} (key : Str)
    : Result (Option KvEntry) E → BatchResultItem → Type 0 where
  found_there :
      (entry : KvEntry)
      → IsItem key
          (ok (some entry))
          (record { key = key; value = some entry.value; found = true; error = none })
  not_there : IsItem key (ok none) (record { key = key; value = none; found = false; error = none })
  not_read :
      (e : E) (text : Str)
      → IsItem key (err e) (record { key = key; value = none; found = false; error = some text })

module _ {W E : Type 0} (services : Services W E) where
  item_of-IsItem :
      (key : Str) (looked : Result (Option KvEntry) E)
      → IsItem key looked (item_of services key looked)
  unfolding item_of
  item_of-IsItem key (ok (some entry)) = found_there entry
  item_of-IsItem key (ok none) = not_there
  item_of-IsItem key (err e) = not_read e _

  -- The items answer the keys in their order: the lookups run one after the other from a state.
  abbrev pub Answers : Str → Str → List Str → W → List BatchResultItem → Type 0
  Answers p c [] world [] = Unit
  Answers p c [] world (item ∷ items) = ⊥
  Answers p c (key ∷ keys) world [] = ⊥
  Answers p c (key ∷ keys) world (item ∷ items) =
      let looked = get_kv_last services.redis services.queries services.chain_id p c key world in
      IsItem key looked.0 item × Answers p c keys looked.1 items

  batch_items-Answers :
      (p c : Str) (keys : List Str) (state : AppState W)
      → state.has_db ≡ true
      → Answers p c keys state.world (batch_items services p c keys state).0
  unfolding batch_items
  batch_items-Answers p c [] state on = tt
  batch_items-Answers p c (key ∷ keys) state on =
      let looked =
        get_kv_last services.redis services.queries services.chain_id p c key state.world in
      let same : batch_item services p c key state
          ≡ (item_of services key looked.0, record state { world = looked.1 }) =
        unfold batch_item in ground (arith, on) in
      rw same (
        item_of-IsItem key looked.0,
        batch_items-Answers p c keys (record state { world = looked.1 }) on,
      )

  -- A batch whose parameters pass its checks, on a server that has a database, is answered, also when
  -- lookups fail: the reply has one item for each key, in the order of the keys. The item of a key
  -- whose lookup gives an entry is found and has the entry's value and no error, the one of a key
  -- that is not there has neither, and the one of a lookup that fails is not found and has an error.
  pub batch_kv_handler_total :
      (q : BatchQuery) (state : AppState W)
      → Passes (batch_checks q)
      → state.has_db ≡ true
      → (items : List BatchResultItem) × ((batch_kv_handler services q state).0
          ≡ ok (respond_ok (Body.batch (record { item = items }))))
        × Answers q.predecessor_id q.current_account_id q.keys state.world items
  unfolding batch_kv_handler with_db require_db ◌>>=◌
  batch_kv_handler_total q state passes on =
      let answers = batch_items-Answers q.predecessor_id q.current_account_id q.keys state on in
      (_, ground (arith, passes, on), answers)
