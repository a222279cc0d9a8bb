-- ===== src/Server/Tree.antt =====
-- fastkv-server/src/tree.rs: slash-separated keys as a nested JSON object.
pub mod Laws
pub mod Build
mod Tests
use key_manager.Base.{Option, none, some, List, [], ◌∷◌, Result, ok, err}
use key_manager.Base.Text.{Str, split}
use key_manager.Server.Json.{Json}

module _ (j : Json) where
  open j use {Value, Map, text, object, as_object, new_map, get, insert, from_str}

  -- `serde_json::from_str(value).unwrap_or_else(|_| Value::String(value.clone()))`
  unfoldable pub parse_value : Str → Value
  parse_value value = elim (from_str value) [ ok v ↦ v | err e ↦ text value ]

  -- `entry(k).or_insert_with(…)` yields the value at `k`, a new object if there was none; a change
  -- of the nested object is written back at `k`. A value of another kind is left alone.
  unfoldable pub insert_nested : Map → List Str → Value → Map
  insert_nested obj [] value = obj
  insert_nested obj (part ∷ []) value = insert obj part value
  insert_nested obj (part ∷ part' ∷ parts) value = elim (get obj part) [
    | none ↦ insert obj part (object (insert_nested new_map (part' ∷ parts) value))
    | some entry ↦ elim (as_object entry) [
      | some nested ↦ insert obj part (object (insert_nested nested (part' ∷ parts) value))
      | none ↦ obj
    ]
  ]

  -- the loop over the items
  unfoldable pub insert_items : Map → List (Str × Str) → Map
  unfolding insert_nested parse_value
  insert_items root [] = root
  insert_items root ((key, value) ∷ items) =
      insert_items (insert_nested root (split b'/' key) (parse_value value)) items

  unfoldable pub build_tree : List (Str × Str) → Value
  unfolding insert_items
  build_tree items = object (insert_items new_map items)
