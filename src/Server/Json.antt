-- ===== src/Server/Json.antt =====
-- What fastkv-server uses of serde_json: values, maps with text keys, and the parser.
pub mod Small
use key_manager.Base.{ℕ, Bool, ◌≡◌, Option, none, some, Result, if◌then◌else◌}
use key_manager.Base.Text.{Str, ◌==ₛ◌}

pub record Json : Type 1 where
  pub Value : Type 0
  pub Map : Type 0
  pub null : Value
  pub boolean : Bool → Value
  pub number : ℕ → Value
  pub text : Str → Value
  pub object : Map → Value
  -- `as_object` and `as_str`
  pub as_object : Value → Option Map
  pub as_str : Value → Option Str
  pub new_map : Map
  pub get : Map → Str → Option Value
  pub insert : Map → Str → Value → Map
  -- `serde_json::from_str`
  pub from_str : Str → Result Value Str

-- The documented behaviour of the maps.
pub record IsMap (j : Json) : Type 1 where
  pub as_object-object : (m : j.Map) → j.as_object (j.object m) ≡ some m
  pub as_str-text : (s : Str) → j.as_str (j.text s) ≡ some s
  pub get-new_map : (k : Str) → j.get j.new_map k ≡ none
  pub get-insert :
      (m : j.Map) (k l : Str) (v : j.Value)
      → j.get (j.insert m k v) l ≡ (if k ==ₛ l then some v else j.get m l)
