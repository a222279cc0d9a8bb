-- ===== src/Server/Startup/Headers.antt =====
-- The headers of every response.
use key_manager.Base.{
  ℕ, ◌≤◌, ◌<◌, ◌≢◌, ◌⊎◌, ◌++◌, subst, ◌≡◌, refl, sym, ap, ◌∙◌, inl, inr, Bool, true, false, not,
  ◌&&◌, Option, none, some, [], ◌∷◌, arith, ltb, is_some, Bool-cases, Option-cases, if◌then◌else◌,
}
use key_manager.Base.Text.{Str, codes, starts_with, ◌==ₛ◌}
use key_manager.Base.Text.Laws.{==ₛ_iff, ==ₛ_refl, starts_with→append, starts_with-append}
use key_manager.Base.Decimal.{show}
use key_manager.Server.Startup.{
  Headers, header, insert, cache_control, no_text, is_success, with_block, with_caching, wrap,
  indexer_block, caching, content_type_options, frame_options,
}

differs :
    (k name other : Str) → (k ==ₛ other) ≡ true → (k ==ₛ name) ≡ false → (name ==ₛ other) ≡ false
differs k name other here apart = elim (Bool-cases (name ==ₛ other)) [
  | inr e ↦ e
  | inl e ↦ absurd (
      ground (
        arith,
        apart,
        ap (λ t. k ==ₛ t) ((==ₛ_iff name other).0 e ∙ sym ((==ₛ_iff k other).0 here)),
        ==ₛ_refl k,
      ))
]

header-insert :
    (headers : Headers) (name value other : Str)
    → header (insert headers name value) other
      ≡ (if name ==ₛ other then some value else header headers other)
unfolding header insert
header-insert [] name value other = refl
header-insert ((k, v) ∷ headers) name value other =
    let rest = header-insert headers name value other in
    elim (Bool-cases (k ==ₛ name)) [
      | inr apart ↦ elim (Bool-cases (k ==ₛ other)) [
        | inl here ↦ ground (arith, apart, here, differs k name other here apart)
        | inr away ↦ ground (arith, apart, away, rest)
      ]
      | inl same ↦ elim (Bool-cases (name ==ₛ other)) [
        | inl here ↦ ground (arith, same, here)
        | inr away ↦ ground (arith, same, away, ap (λ t. t ==ₛ other) ((==ₛ_iff k name).0 same))
      ]
    ]

-- The Cache-Control of a response, by the method, the path and the status, and by what the handler
-- itself has set.
pub data Caching : Bool → Str → ℕ → Option Str → Option Str → Type 0 where
  of_handler :
      (is_get : Bool) (path : Str) (status : ℕ) (own : Str)
      → Caching is_get path status (some own) (some own)
  never :
      (path : Str) (status : ℕ)
      → (path ≡ codes "/health") ⊎ (path ≡ codes "/v1/status")
      → 200 ≤ status
      → status < 300
      → Caching true path status none (some (codes "no-cache"))
  seconds :
      (rest : Str) (status : ℕ)
      → codes "/v1/" ++ rest ≢ codes "/v1/status"
      → 200 ≤ status
      → status < 300
      → Caching true (codes "/v1/" ++ rest) status none (some (codes "public, max-age=5"))
  other_path :
      (path : Str) (status : ℕ)
      → path ≢ codes "/health"
      → ((rest : Str) → path ≢ codes "/v1/" ++ rest)
      → Caching true path status none none
  other_method : (path : Str) (status : ℕ) → Caching false path status none none
  no_success :
      (path : Str) (status : ℕ)
      → (status < 200) ⊎ (300 ≤ status)
      → Caching true path status none none

-- What the code makes the caching of a response.
abbrev pub cached : Bool → Str → ℕ → Option Str → Option Str
cached is_get path status (some own) = some own
cached is_get path status none =
    if is_get && is_success status && not (no_text (cache_control path))
    then some (cache_control path)
    else none

path_Caching :
    (path : Str) (status : ℕ)
    → 200 ≤ status
    → status < 300
    → Caching true path status none (cached true path status none)
unfolding cache_control
path_Caching path status low high = elim (Bool-cases (path ==ₛ codes "/health")) [
  | inl health ↦
      subst (Caching true path status none) (ground (arith, low, high, health))
        (never path status (inl ((==ₛ_iff path (codes "/health")).0 health)) low high)
  | inr not_health ↦ elim (Bool-cases (path ==ₛ codes "/v1/status")) [
    | inl is_status ↦
        subst (Caching true path status none) (ground (arith, low, high, not_health, is_status))
          (never path status (inr ((==ₛ_iff path (codes "/v1/status")).0 is_status)) low high)
    | inr not_status ↦ elim (Bool-cases (starts_with path (codes "/v1/"))) [
      | inl api ↦
          let (rest, e) = starts_with→append path (codes "/v1/") api in
          subst (Caching true path status none)
            (ground (arith, low, high, not_health, not_status, api))
            (subst (λ p. Caching true p status none (some (codes "public, max-age=5"))) (sym e)
              (seconds rest status
                (λ same.
                  ground (arith, not_status, (==ₛ_iff path (codes "/v1/status")).1 (e ∙ same)))
                low high))
      | inr other ↦
          subst (Caching true path status none)
            (ground (arith, low, high, not_health, not_status, other))
            (other_path path status
              (λ same. ground (arith, not_health, (==ₛ_iff path (codes "/health")).1 same))
              (λ rest same. ground (
                arith,
                other,
                ap (λ p. starts_with p (codes "/v1/")) same,
                starts_with-append (codes "/v1/") rest,
              )))
    ]
  ]
]

cached-Caching :
    (is_get : Bool) (path : Str) (status : ℕ) (own : Option Str)
    → Caching is_get path status own (cached is_get path status own)
cached-Caching is_get path status (some own) = of_handler is_get path status own
cached-Caching false path status none = other_method path status
cached-Caching true path status none = elim (Bool-cases (is_success status)) [
  | inl success ↦ path_Caching path status (ground (arith, success)) (ground (arith, success))
  | inr failure ↦
      subst (Caching true path status none) (ground (arith, failure))
        (no_success path status (ground (arith, failure)))
]

with_caching-cached :
    (is_get : Bool) (path : Str) (status : ℕ) (headers : Headers)
    → header (with_caching is_get path status headers) caching
      ≡ cached is_get path status (header headers caching)
unfolding with_caching
with_caching-cached is_get path status headers = elim (Option-cases (header headers caching)) [
  | inr (own, e) ↦ ground (arith, e)
  | inl e ↦ elim (Bool-cases (is_get && is_success status && not (no_text (cache_control path)))) [
    | inl yes_it_is ↦ ground (
      arith,
      e,
      yes_it_is,
      header-insert headers caching (cache_control path) caching,
      ==ₛ_refl caching,
    )
    | inr is_not ↦ ground (arith, e, is_not)
  ]
]

with_caching-other :
    (is_get : Bool) (path : Str) (status : ℕ) (headers : Headers) (name : Str)
    → (caching ==ₛ name) ≡ false
    → header (with_caching is_get path status headers) name ≡ header headers name
unfolding with_caching
with_caching-other is_get path status headers name apart =
    elim (Bool-cases (
      is_get
      && is_success status
      && not (is_some (header headers caching))
      && not (no_text (cache_control path)))) [
        | inl e ↦ ground (arith, e, apart, header-insert headers caching (cache_control path) name)
        | inr e ↦ ground (arith, e)
      ]

-- A header that is put in is there, and the others are as they were.
there :
    (headers : Headers) (name value : Str) → header (insert headers name value) name ≡ some value
there headers name value = ground (arith, header-insert headers name value name, ==ₛ_refl name)

elsewhere :
    (headers : Headers) (name value other : Str)
    → (name ==ₛ other) ≡ false
    → header (insert headers name value) other ≡ header headers other
elsewhere headers name value other apart =
    ground (arith, header-insert headers name value other, apart)

with_block-caching :
    (h : ℕ) (headers : Headers) → header (with_block h headers) caching ≡ header headers caching
unfolding with_block ◌==ₛ◌
with_block-caching h headers = elim (Bool-cases (ltb 0 h)) [
  | inl e ↦ rw (e) (elsewhere headers indexer_block (show h) caching refl)
  | inr e ↦ rw (e) refl
]

with_block_lem :
    (h : ℕ) (headers : Headers)
    → header (with_block h headers) indexer_block
      ≡ (if ltb 0 h then some (show h) else header headers indexer_block)
unfolding with_block
with_block_lem h headers = elim (Bool-cases (ltb 0 h)) [
  | inl e ↦ rw (e) (there headers indexer_block (show h))
  | inr e ↦ rw (e) refl
]

-- Whatever a handler replies, the two security headers are there with their values. The handler's own
-- Cache-Control stays; otherwise a successful reply to a GET request gets the one of its path,
-- no-cache for health and status, five seconds for the other API paths, and no other reply gets one.
-- The cached height of the indexer is there when it is above 0.
pub wrap_lem :
    (h : ℕ) (is_get : Bool) (path : Str) (status : ℕ) (headers : Headers)
    → let wrapped = wrap h is_get path status headers in
      (header wrapped content_type_options ≡ some (codes "nosniff"))
      × (header wrapped frame_options ≡ some (codes "DENY"))
      × Caching is_get path status (header headers caching) (header wrapped caching)
      × (header wrapped indexer_block
          ≡ (if ltb 0 h then some (show h) else header headers indexer_block))
unfolding wrap ◌==ₛ◌
wrap_lem h is_get path status headers =
    let blocked = with_block h headers in
    let served = with_caching is_get path status blocked in
    let sniffed = insert served content_type_options (codes "nosniff") in
    (
      elsewhere sniffed frame_options (codes "DENY") content_type_options refl
          ∙ there served content_type_options (codes "nosniff"),
      there sniffed frame_options (codes "DENY"),
      subst (Caching is_get path status (header headers caching))
          (sym (
            elsewhere sniffed frame_options (codes "DENY") caching refl
            ∙ elsewhere served content_type_options (codes "nosniff") caching refl
            ∙ with_caching-cached is_get path status blocked
            ∙ ap (λ own. cached is_get path status own) (with_block-caching h headers)))
          (cached-Caching is_get path status (header headers caching)),
      elsewhere sniffed frame_options (codes "DENY") indexer_block refl
          ∙ elsewhere served content_type_options (codes "nosniff") indexer_block refl
          ∙ with_caching-other is_get path status blocked indexer_block refl
          ∙ with_block_lem h headers,
    )
