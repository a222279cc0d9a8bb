-- ===== src/Server/Tree/Laws.antt =====
-- Every item of a tree is found at its path.
use key_manager.Base.{
  ◌≡◌, refl, sym, ◌≢◌, ◌∙◌, ◌⊎◌, inl, inr, Option, none, some, List, [], ◌∷◌, arith, Option-cases,
}
use key_manager.Base.Text.{Str}
use key_manager.Base.Text.Laws.{==ₛ_iff, ==ₛ_refl}
use key_manager.Server.Json.{Json, IsMap}
use key_manager.Server.Tree.{insert_nested}

-- Neither path is the beginning of the other: they part at some label.
abbrev pub Apart : List Str → List Str → Type 0
Apart (a ∷ p) (b ∷ q) = (a ≢ b) ⊎ ((a ≡ b) × Apart p q)
Apart _ _ = ⊥

pub Apart-comm : (p q : List Str) → Apart p q → Apart q p
Apart-comm (a ∷ p) (b ∷ q) (inl h) = inl (λ e. h (sym e))
Apart-comm (a ∷ p) (b ∷ q) (inr (e, h)) = inr (sym e, Apart-comm p q h)
Apart-comm [] q h = absurd h
Apart-comm (a ∷ p) [] h = absurd h

module _ (j : Json) where
  open j use {Value, Map, object, as_object, new_map, get, insert}

  -- The value that a path leads to.
  unfoldable pub find : Map → List Str → Option Value
  find m [] = none
  find m (k ∷ []) = get m k
  find m (k ∷ k' ∷ p) = elim (get m k) [
    | none ↦ none
    | some v ↦ elim (as_object v) [ none ↦ none | some n ↦ find n (k' ∷ p) ]
  ]

  -- No value other than an object stands on the way.
  abbrev pub IsOpen : Map → List Str → Type 0
  IsOpen m [] = Unit
  IsOpen m (k ∷ []) = Unit
  IsOpen m (k ∷ k' ∷ p) =
      (get m k ≡ none)
      ⊎ ((v : Value) × (n : Map) × (get m k ≡ some v) × (as_object v ≡ some n) × IsOpen n (k' ∷ p))

  module _ (laws : IsMap j) where
    get-insert_self : (m : Map) (k : Str) (v : Value) → get (insert m k v) k ≡ some v
    get-insert_self m k v = ground (arith, laws.get-insert m k k v, ==ₛ_refl k)

    get-insert_ne : (m : Map) (k l : Str) (v : Value) → l ≢ k → get (insert m k v) l ≡ get m l
    get-insert_ne m k l v h = ground (arith, laws.get-insert m k l v, ==ₛ_iff k l)

    pub get-insert_nested_ne :
        (m : Map) (a b : Str) (q : List Str) (v : Value)
        → a ≢ b
        → get (insert_nested j m (b ∷ q) v) a ≡ get m a
    unfolding insert_nested
    get-insert_nested_ne m a b [] v h = get-insert_ne m b a v h
    get-insert_nested_ne m a b (c ∷ q) v h = elim (Option-cases (get m b)) [
      | inl missing ↦
          ground
            (arith, missing, get-insert_ne m b a (object (insert_nested j new_map (c ∷ q) v)) h)
      | inr (w, there) ↦ elim (Option-cases (as_object w)) [
        | inl scalar ↦ ground (arith, there, scalar)
        | inr (n, nested) ↦
            ground
              (arith, there, nested, get-insert_ne m b a (object (insert_nested j n (c ∷ q) v)) h)
      ]
    ]

    pub find-get :
        (m m' : Map) (k : Str) (p : List Str)
        → get m k ≡ get m' k
        → find m (k ∷ p) ≡ find m' (k ∷ p)
    unfolding find
    find-get m m' k [] e = e
    find-get m m' k (k' ∷ p) e = ground (arith, e)

    pub find_nested :
        (m n : Map) (k k' : Str) (p : List Str)
        → get m k ≡ some (object n)
        → find m (k ∷ k' ∷ p) ≡ find n (k' ∷ p)
    unfolding find
    find_nested m n k k' p e = ground (arith, e, laws.as_object-object n)

    pub find-new_map : (p : List Str) → find new_map p ≡ none
    unfolding find
    find-new_map [] = refl
    find-new_map (k ∷ []) = laws.get-new_map k
    find-new_map (k ∷ k' ∷ p) = ground (arith, laws.get-new_map k)

    pub IsOpen-new_map : (p : List Str) → IsOpen new_map p
    IsOpen-new_map [] = tt
    IsOpen-new_map (k ∷ []) = tt
    IsOpen-new_map (k ∷ k' ∷ p) = inl (laws.get-new_map k)

    -- what an insertion below `k` leaves at `k`
    pub get-insert_nested_new :
        (m : Map) (k k' : Str) (p : List Str) (v : Value)
        → get m k ≡ none
        → get (insert_nested j m (k ∷ k' ∷ p) v) k
          ≡ some (object (insert_nested j new_map (k' ∷ p) v))
    unfolding insert_nested
    get-insert_nested_new m k k' p v e =
        ground (arith, e, get-insert_self m k (object (insert_nested j new_map (k' ∷ p) v)))

    pub get-insert_nested_old :
        (m : Map) (k k' : Str) (p : List Str) (v w : Value) (n : Map)
        → get m k ≡ some w
        → as_object w ≡ some n
        → get (insert_nested j m (k ∷ k' ∷ p) v) k ≡ some (object (insert_nested j n (k' ∷ p) v))
    unfolding insert_nested
    get-insert_nested_old m k k' p v w n e o =
        ground (arith, e, o, get-insert_self m k (object (insert_nested j n (k' ∷ p) v)))

    pub find-insert_nested_self :
        (m : Map) (k : Str) (p : List Str) (v : Value)
        → IsOpen m (k ∷ p)
        → find (insert_nested j m (k ∷ p) v) (k ∷ p) ≡ some v
    find-insert_nested_self m k [] v h = unfold find insert_nested in get-insert_self m k v
    find-insert_nested_self m k (k' ∷ p) v (inl e) =
        find_nested _ _ k k' p (get-insert_nested_new m k k' p v e)
        ∙ find-insert_nested_self new_map k' p v (IsOpen-new_map (k' ∷ p))
    find-insert_nested_self m k (k' ∷ p) v (inr (w, n, e, o, h)) =
        find_nested _ _ k k' p (get-insert_nested_old m k k' p v w n e o)
        ∙ find-insert_nested_self n k' p v h
