-- ===== src/Server/Json/Small.antt =====
-- A small JSON that the tests of the server share.
use key_manager.Base.{ℕ, Bool, refl, Option, none, some, err, if◌then◌else◌}
use key_manager.Base.Text.{Str, ◌==ₛ◌}
use key_manager.Server.Json.{Json, IsMap}

-- A JSON of null, Booleans, numbers, texts and objects, an object being the history of its insertions.
mutual
  pub data Value : Type 0 where
    nil : Value
    flag : Bool → Value
    nat : ℕ → Value
    string : Str → Value
    node : Entries → Value

  pub data Entries : Type 0 where
    nothing : Entries
    entry : Str → Value → Entries → Entries

abbrev pub look_up : Entries → Str → Option Value
look_up nothing l = none
look_up (entry k v m) l = if k ==ₛ l then some v else look_up m l

abbrev entries : Value → Option Entries
entries (node m) = some m
entries _ = none

abbrev str_of : Value → Option Str
str_of (string s) = some s
str_of _ = none

abbrev pub small : Json
small = record {
  Value = Value;
  Map = Entries;
  null = nil;
  boolean = flag;
  number = nat;
  text = string;
  object = node;
  as_object = entries;
  as_str = str_of;
  new_map = nothing;
  get = look_up;
  insert = λ m k v. entry k v m;
  from_str = λ s. err s;
}

pub small-IsMap : IsMap small
small-IsMap = record {
  as_object-object = λ m. refl;
  as_str-text = λ s. refl;
  get-new_map = λ k. refl;
  get-insert = λ m k l v. refl;
}
