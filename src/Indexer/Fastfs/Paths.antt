-- ===== src/Indexer/Fastfs/Paths.antt =====
-- Which paths and MIME types pass the checks.
use key_manager.Base.{
  ℕ, ◌≤◌, ◌<◌, ◌≡◌, ◌≢◌, refl, ap, ◌↔◌, Bool, true, false, ◌||◌, not, List, [], ◌∷◌, ◌++◌, ltb,
  ◌==◌, length, any, is_empty, All, arith,
}
use key_manager.Base.Text.{
  Str, codes, len, starts_with, ends_with, contains_char, split, is_ascii, is_ascii_control,
}
use key_manager.Base.Text.Laws.{==ₛ_iff, ends_with→append, split-append_end}
use key_manager.Indexer.Fastfs.{is_bad_part, is_valid_relative_path, is_bad_mime_type}

-- Printable ASCII without `%`.
abbrev pub IsPlain : ℕ → Type 0
IsPlain c = (31 < c) × (c < 127) × (c ≢ 37)

abbrev pub IsPrintable : ℕ → Type 0
IsPrintable c = (31 < c) × (c < 127)

-- A name of a file or a directory, not a step in the tree.
abbrev pub IsName : Str → Type 0
IsName part = (part ≢ []) × (part ≢ codes ".") × (part ≢ codes "..")

abbrev pub IsSafePath : Str → Type 0
IsSafePath path =
    (path ≢ [])
    × (length path ≤ 1024)
    × All IsPlain path
    × All IsName (split b'/' path)
    × All IsName (split 92 path)

abbrev pub IsMimeType : Str → Type 0
IsMimeType t = (t ≢ []) × (length t ≤ 256) × All IsPrintable t

module _ {ℓ κ} {A : Type ℓ} {P : A → Type κ} (p : A → Bool) where
  any_iff : ((x : A) → (p x ≡ false) ↔ P x) → (xs : List A) → (any p xs ≡ false) ↔ All P xs
  any_iff h [] = ((λ _. tt), (λ _. refl))
  any_iff h (x ∷ xs) = (
    (λ e. ((h x).0 (ground (arith, e)), (any_iff h xs).0 (ground (arith, e)))),
    λ (px, pxs). ground (arith, (h x).1 px, (any_iff h xs).1 pxs),
  )

len-ascii : (s : Str) → is_ascii s ≡ true → len s ≡ length s
unfolding len is_ascii
len-ascii [] h = refl
len-ascii (c ∷ s) h = ground (arith, h, len-ascii s)

is_bad_part_iff : (c : Str) → (is_bad_part c ≡ false) ↔ IsName c
is_bad_part_iff [] = ground arith
is_bad_part_iff (c ∷ s) = ground (arith, ==ₛ_iff (c ∷ s) (codes "."), ==ₛ_iff (c ∷ s) (codes ".."))

plain : (c : ℕ) → c < 128 → is_ascii_control c ≡ false → (c == 37) ≡ false → IsPlain c
plain c h k e = ground arith

plain_lem :
    (path : Str)
    → (((contains_char path 0 || contains_char path 37) || not (is_ascii path))
        || any is_ascii_control path)
      ≡ false
    → All IsPlain path
unfolding contains_char is_ascii
plain_lem [] h = tt
plain_lem (c ∷ s) h = (ground (arith, h), plain_lem s (ground (arith, h)))

plain→ :
    (path : Str)
    → All IsPlain path
    → (contains_char path 0 ≡ false)
      × (contains_char path 37 ≡ false)
      × (is_ascii path ≡ true)
      × (any is_ascii_control path ≡ false)
unfolding contains_char is_ascii
plain→ [] h = ground arith
plain→ (c ∷ s) (h, hs) = ground (arith, h, plain→ s hs)

-- A separator at either end cuts off an empty part.
starts_with→bad :
    (sep : ℕ) (s : Str) → starts_with s (sep ∷ []) ≡ true → any is_bad_part (split sep s) ≡ true
unfolding split starts_with
starts_with→bad sep [] h = absurd (ground (arith, h))
starts_with→bad sep (c ∷ s) h = ground (arith, h)

any_last : (ps : List Str) → any is_bad_part (ps ++ [] ∷ []) ≡ true
any_last [] = refl
any_last (p ∷ ps) = ground (arith, any_last ps)

ends_with→bad :
    (sep : ℕ) (s : Str) → ends_with s (sep ∷ []) ≡ true → any is_bad_part (split sep s) ≡ true
ends_with→bad sep s h =
    let (r, shape) = ends_with→append s (sep ∷ []) h in
    let (p, ps, pieces) = split-append_end sep r in
    ground (
      arith,
      ap (λ t. any is_bad_part (split sep t)) shape,
      ap (any is_bad_part) pieces,
      any_last ps,
    )

is_empty_iff : (s : Str) → (is_empty s ≡ false) ↔ (s ≢ [])
is_empty_iff [] = ground arith
is_empty_iff (c ∷ s) = ground arith

names_iff : (ps : List Str) → (any is_bad_part ps ≡ false) ↔ All IsName ps
names_iff = any_iff is_bad_part is_bad_part_iff

accepted :
    (path : Str)
    → is_valid_relative_path path ≡ true
    → (is_empty path ≡ false)
      × (ltb 1024 (len path) ≡ false)
      × (any is_bad_part (split 47 path) ≡ false)
      × (any is_bad_part (split 92 path) ≡ false)
      × (is_ascii path ≡ true)
      × ((((contains_char path 0 || contains_char path 37) || not (is_ascii path))
            || any is_ascii_control path)
          ≡ false)
unfolding is_valid_relative_path
accepted path h = ground (arith, h)

rebuilt :
    (path : Str)
    → is_empty path ≡ false
    → ltb 1024 (len path) ≡ false
    → any is_bad_part (split 47 path) ≡ false
    → any is_bad_part (split 92 path) ≡ false
    → is_ascii path ≡ true
    → contains_char path 0 ≡ false
    → contains_char path 37 ≡ false
    → any is_ascii_control path ≡ false
    → is_valid_relative_path path ≡ true
unfolding is_valid_relative_path
rebuilt path e l s b a z c k = ground (
  arith,
  starts_with→bad 47 path,
  starts_with→bad 92 path,
  ends_with→bad 47 path,
  ends_with→bad 92 path,
)

-- The check accepts exactly the paths of at most 1024 printable ASCII characters without `%` whose
-- parts, whether cut at slashes or at backslashes, are nonempty and neither `.` nor `..`.
pub is_valid_relative_path_iff :
    (path : Str) → (is_valid_relative_path path ≡ true) ↔ IsSafePath path
is_valid_relative_path_iff path = (
  (λ h.
      let (e, l, s, b, a, rest) = accepted path h in
      (
        (is_empty_iff path).0 e,
        ground (arith, len-ascii path a, l),
        plain_lem path rest,
        (names_iff (split 47 path)).0 s,
        (names_iff (split 92 path)).0 b,
      )),
  λ (e, l, p, s, b).
      let (z, c, a, k) = plain→ path p in
      rebuilt path ((is_empty_iff path).1 e) (ground (arith, len-ascii path a, l))
        ((names_iff (split 47 path)).1 s) ((names_iff (split 92 path)).1 b) a z c k,
)

IsPrintable-iff :
    (t : Str) → ((not (is_ascii t) || any is_ascii_control t) ≡ false) ↔ All IsPrintable t
unfolding is_ascii
IsPrintable-iff [] = ground arith
IsPrintable-iff (c ∷ t) = (
  (λ h. (ground (arith, h), (IsPrintable-iff t).0 (ground (arith, h)))),
  λ (h, hs). ground (arith, h, (IsPrintable-iff t).1 hs),
)

-- The check on MIME types accepts exactly the 1 to 256 printable ASCII characters.
pub is_bad_mime_type_iff : (t : Str) → (is_bad_mime_type t ≡ false) ↔ IsMimeType t
unfolding is_bad_mime_type
is_bad_mime_type_iff t = (
  (λ h. (
    (is_empty_iff t).0 (ground (arith, h)),
    ground (arith, h, len-ascii t),
    (IsPrintable-iff t).0 (ground (arith, h)),
  )),
  λ (e, l, p). ground (arith, (is_empty_iff t).1 e, l, len-ascii t, (IsPrintable-iff t).1 p),
)
