-- ===== src/Server/Tree/Tests.antt =====
-- Trees over a small JSON, and the theorem at a concrete list of items.
use key_manager.Base.{◌≡◌, refl, ◌≢◌, inl, inr, some, List, [], ◌∷◌, arith, All}
use key_manager.Base.Text.{Str, codes, split}
use key_manager.Server.Json.Small.{Entries, node, small, small-IsMap}
use key_manager.Server.Tree.{build_tree}
use key_manager.Server.Tree.Laws.{find}
use key_manager.Server.Tree.Build.{PathsApart, IsJsonOf, build_tree-find}

abbrev profile : List (Str × Str)
profile =
    (codes "profile/name", codes "Alice")
    ∷ (codes "profile/links/site", codes "a.org")
    ∷ (codes "graph", codes "yes")
    ∷ []

profile-PathsApart : PathsApart profile
unfolding split
profile-PathsApart = (
  (inr (refl, inl differ), (inl (λ e. ground (arith, e)), tt)),
  ((inl (λ e. ground (arith, e)), tt), (tt, tt)),
)
  where
    differ : codes "name" ≢ codes "links"
    differ e = ground (arith, e)

build_tree-find_example :
    (root : Entries) × (build_tree small profile ≡ node root)
    × All
        (λ item.
          (v : small.Value) × (find small root (split b'/' item.0) ≡ some v)
          × IsJsonOf small item.1 v)
        profile
build_tree-find_example = build_tree-find small small-IsMap profile profile-PathsApart
