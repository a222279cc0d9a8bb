-- ===== src/Server/Tree/Build.antt =====
-- Insertions at paths that part do not disturb one another, so a tree holds all of its items.
use key_manager.Base.{
  ◌≡◌, refl, sym, ◌≢◌, ap, ◌∙◌, ◌⊎◌, inl, inr, ok, err, Result-cases, none, some, List, [], ◌∷◌,
  arith, Option-cases, All,
}
use key_manager.Base.Text.{Str, split}
use key_manager.Base.Text.Laws.{split-ne-nil}
use key_manager.Server.Json.{Json, IsMap}
use key_manager.Server.Tree.{parse_value, insert_nested, insert_items, build_tree}
use key_manager.Server.Tree.Laws.{
  Apart, Apart-comm, find, IsOpen, get-insert_nested_ne, get-insert_nested_new,
  get-insert_nested_old, find-get, find_nested, find-new_map, IsOpen-new_map,
  find-insert_nested_self,
}

-- What a value becomes: the JSON that it is the text of, or else the text itself.
abbrev pub IsJsonOf : (j : Json) → Str → j.Value → Type 0
IsJsonOf j s v = (j.from_str s ≡ ok v) ⊎ ((e : Str) × (j.from_str s ≡ err e) × (v ≡ j.text s))

-- The paths of different items part.
abbrev pub PathsApart : List (Str × Str) → Type 0
PathsApart [] = Unit
PathsApart ((k, v) ∷ items) =
    All (λ item. Apart (split b'/' k) (split b'/' item.0)) items × PathsApart items

module _ (j : Json) (laws : IsMap j) where
  open j use {Value, Map, object, as_object, new_map, get, insert}

  find_missing :
      (m : Map) (k k' : Str) (p : List Str) → get m k ≡ none → find j m (k ∷ k' ∷ p) ≡ none
  unfolding find
  find_missing m k k' p e = ground (arith, e)

  find_old :
      (m n : Map) (k k' : Str) (p : List Str) (w : Value)
      → get m k ≡ some w
      → as_object w ≡ some n
      → find j m (k ∷ k' ∷ p) ≡ find j n (k' ∷ p)
  unfolding find
  find_old m n k k' p w e o = ground (arith, e, o)

  insert_nested_scalar :
      (m : Map) (k k' : Str) (p : List Str) (v w : Value)
      → get m k ≡ some w
      → as_object w ≡ none
      → insert_nested j m (k ∷ k' ∷ p) v ≡ m
  unfolding insert_nested
  insert_nested_scalar m k k' p v w e o = ground (arith, e, o)

  find-insert_nested-Apart :
      (m : Map) (p q : List Str) (v : Value)
      → Apart p q
      → find j (insert_nested j m q v) p ≡ find j m p
  find-insert_nested-Apart m [] q v h = absurd h
  find-insert_nested-Apart m (a ∷ p) [] v h = absurd h
  find-insert_nested-Apart m (a ∷ p) (b ∷ q) v (inl h) =
      find-get j laws _ _ a p (get-insert_nested_ne j laws m a b q v h)
  find-insert_nested-Apart m (a ∷ []) (b ∷ q) v (inr (e, h)) = absurd h
  find-insert_nested-Apart m (a ∷ c ∷ p) (b ∷ []) v (inr (e, h)) = absurd h
  find-insert_nested-Apart m (a ∷ c ∷ p) (b ∷ d ∷ q) v (inr (e, h)) =
      rw e (elim (Option-cases (get m b)) [
        | inl missing ↦
            find_nested j laws _ _ b c p (get-insert_nested_new j laws m b d q v missing)
            ∙ find-insert_nested-Apart new_map (c ∷ p) (d ∷ q) v h
            ∙ find-new_map j laws (c ∷ p)
            ∙ sym (find_missing m b c p missing)
        | inr (w, there) ↦ elim (Option-cases (as_object w)) [
          | inl scalar ↦
              ap (λ t. find j t (b ∷ c ∷ p)) (insert_nested_scalar m b d q v w there scalar)
          | inr (n, nested) ↦
              find_nested j laws _ _ b c p (get-insert_nested_old j laws m b d q v w n there nested)
              ∙ find-insert_nested-Apart n (c ∷ p) (d ∷ q) v h
              ∙ sym (find_old m n b c p w there nested)
        ]
      ])

  IsOpen-get :
      (m m' : Map) (k : Str) (p : List Str)
      → get m' k ≡ get m k
      → IsOpen j m (k ∷ p)
      → IsOpen j m' (k ∷ p)
  IsOpen-get m m' k [] e h = tt
  IsOpen-get m m' k (c ∷ p) e (inl missing) = inl (e ∙ missing)
  IsOpen-get m m' k (c ∷ p) e (inr (w, n, there, nested, h)) = inr (w, n, e ∙ there, nested, h)

  IsOpen-insert_nested :
      (m : Map) (p q : List Str) (v : Value)
      → Apart p q
      → IsOpen j m p
      → IsOpen j (insert_nested j m q v) p
  IsOpen-insert_nested m [] q v h o = tt
  IsOpen-insert_nested m (a ∷ p) [] v h o = absurd h
  IsOpen-insert_nested m (a ∷ p) (b ∷ q) v (inl h) o =
      IsOpen-get _ _ a p (get-insert_nested_ne j laws m a b q v h) o
  IsOpen-insert_nested m (a ∷ []) (b ∷ q) v (inr (e, h)) o = tt
  IsOpen-insert_nested m (a ∷ c ∷ p) (b ∷ []) v (inr (e, h)) o = absurd h
  IsOpen-insert_nested m (a ∷ c ∷ p) (b ∷ d ∷ q) v (inr (e, h)) (inl missing) = inr (
    object (insert_nested j new_map (d ∷ q) v),
    insert_nested j new_map (d ∷ q) v,
    ap (get _) e ∙ get-insert_nested_new j laws m b d q v (ap (get m) (sym e) ∙ missing),
    laws.as_object-object _,
    IsOpen-insert_nested new_map (c ∷ p) (d ∷ q) v h (IsOpen-new_map j laws (c ∷ p)),
  )
  IsOpen-insert_nested m (a ∷ c ∷ p) (b ∷ d ∷ q) v (inr (e, h)) (inr (w, n, there, nested, o)) =
      inr (
        object (insert_nested j n (d ∷ q) v),
        insert_nested j n (d ∷ q) v,
        ap (get _) e
            ∙ get-insert_nested_old j laws m b d q v w n (ap (get m) (sym e) ∙ there) nested,
        laws.as_object-object _,
        IsOpen-insert_nested n (c ∷ p) (d ∷ q) v h o,
      )

  -- what the loop leaves at a path that parts from those of all items
  find-insert_items :
      (m : Map) (p : List Str) (items : List (Str × Str))
      → All (λ item. Apart p (split b'/' item.0)) items
      → find j (insert_items j m items) p ≡ find j m p
  unfolding insert_items
  find-insert_items m p [] h = refl
  find-insert_items m p ((k, v) ∷ items) (h, hs) =
      find-insert_items (insert_nested j m (split b'/' k) (parse_value j v)) p items hs
      ∙ find-insert_nested-Apart m p (split b'/' k) (parse_value j v) h

  still-IsOpen :
      (m : Map) (q : List Str) (v : Value) (items : List (Str × Str))
      → All (λ item. Apart q (split b'/' item.0)) items
      → All (λ item. IsOpen j m (split b'/' item.0)) items
      → All (λ item. IsOpen j (insert_nested j m q v) (split b'/' item.0)) items
  still-IsOpen m q v [] h o = tt
  still-IsOpen m q v ((k, w) ∷ items) (h, hs) (o, os) = (
    IsOpen-insert_nested m (split b'/' k) q v (Apart-comm q (split b'/' k) h) o,
    still-IsOpen m q v items hs os,
  )

  find_inserted :
      (m : Map) (p : List Str) (v : Value)
      → p ≢ []
      → IsOpen j m p
      → find j (insert_nested j m p v) p ≡ some v
  find_inserted m [] v h o = absurd (h refl)
  find_inserted m (k ∷ p) v h o = find-insert_nested_self j laws m k p v o

  insert_items-All :
      (m : Map) (items : List (Str × Str))
      → PathsApart items
      → All (λ item. IsOpen j m (split b'/' item.0)) items
      → All
          (λ item.
            find j (insert_items j m items) (split b'/' item.0) ≡ some (parse_value j item.1))
          items
  unfolding insert_items
  insert_items-All m [] a o = tt
  insert_items-All m ((k, v) ∷ items) (a, apart') (o, os) = (
    find-insert_items (insert_nested j m (split b'/' k) (parse_value j v)) (split b'/' k) items a
        ∙ find_inserted m (split b'/' k) (parse_value j v) (split-ne-nil b'/' k) o,
    insert_items-All (insert_nested j m (split b'/' k) (parse_value j v)) items apart'
        (still-IsOpen m (split b'/' k) (parse_value j v) items a os),
  )

  All-IsOpen : (items : List (Str × Str)) → All (λ item. IsOpen j new_map (split b'/' item.0)) items
  All-IsOpen [] = tt
  All-IsOpen ((k, v) ∷ items) = (IsOpen-new_map j laws (split b'/' k), All-IsOpen items)

  parse_value-IsJsonOf : (s : Str) → IsJsonOf j s (parse_value j s)
  unfolding parse_value
  parse_value-IsJsonOf s = elim (Result-cases (j.from_str s)) [
    | inl (v, good) ↦ inl (ground (arith, good))
    | inr (e, bad) ↦ inr (e, bad, ground (arith, bad))
  ]

  All-IsJsonOf :
      (root : Map) (items : List (Str × Str))
      → All (λ item. find j root (split b'/' item.0) ≡ some (parse_value j item.1)) items
      → All
          (λ item. (v : Value) × (find j root (split b'/' item.0) ≡ some v) × IsJsonOf j item.1 v)
          items
  All-IsJsonOf root [] h = tt
  All-IsJsonOf root ((k, s) ∷ items) (h, hs) =
      ((parse_value j s, h, parse_value-IsJsonOf s), All-IsJsonOf root items hs)

  -- If no key is, label by label, the beginning of another, the tree is an object in which each
  -- key, cut at its slashes, leads to its value: the value's JSON, or its text if it is none.
  pub build_tree-find :
      (items : List (Str × Str))
      → PathsApart items
      → (root : Map) × (build_tree j items ≡ object root)
        × All
            (λ item. (v : Value) × (find j root (split b'/' item.0) ≡ some v) × IsJsonOf j item.1 v)
            items
  unfolding build_tree
  build_tree-find items h = (
    insert_items j new_map items,
    refl,
    All-IsJsonOf _ items (insert_items-All new_map items h (All-IsOpen items)),
  )
