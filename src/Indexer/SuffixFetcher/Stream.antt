-- ===== src/Indexer/SuffixFetcher/Stream.antt =====
-- What a stream sends.
use key_manager.Base.{
  ℕ, ◌≡◌, refl, sym, ap, ◌∙◌, inl, inr, Bool, true, ◌||◌, Option, none, some, List, [], ◌∷◌, ◌++◌,
  append_assoc, append-nil, ok, err, arith, Bool-cases, Option-cases, ltb, if◌then◌else◌,
}
use key_manager.Base.Text.{Str}
use key_manager.Indexer.RedisDb.{FastData}
use key_manager.Indexer.SuffixFetcher.{
  key_height, Source, Replies, shutdown, failed, last_page, page, Progress, KeyStep, next_key, send,
  handle_key, handle_keys, stream_suffix_data,
}

-- A receiver that takes everything and a database that answers.
pub record IsReliable {E : Type 0} (source : Source E) : Type 0 where
  pub takes_all : (sent : List FastData) → source.is_open sent ≡ true
  pub answers : (key : Str) → (found : Option Str) × (source.get key ≡ ok found)

-- The keys of a scan that ends; none if it is cut short.
abbrev pub all_keys : {E : Type 0} → Replies E → Option (List Str)
all_keys shutdown = none
all_keys (failed e) = none
all_keys (last_page keys) = some keys
all_keys (page keys replies) = elim (all_keys replies) [
  | none ↦ none
  | some rest ↦ some (keys ++ rest)
]

module _ {E : Type 0} (source : Source E) (from_block to_block : ℕ) where
  -- The fast data of a key, if its height is in the range and it is there and can be read.
  abbrev pub wanted : Str → List FastData
  wanted key = elim (key_height key) [
    | none ↦ []
    | some height ↦
        if ltb height from_block || ltb to_block height then [] else elim (source.get key) [
          | err e ↦ []
          | ok found ↦ elim found [
            | none ↦ []
            | some json ↦ elim (source.from_str json) [ none ↦ [] | some fastdata ↦ fastdata ∷ [] ]
          ]
        ]
  ]

  abbrev pub collect : List Str → List FastData
  collect [] = []
  collect (key ∷ keys) = wanted key ++ collect keys

  -- the height of the last fast data, or what was there
  abbrev pub last_height : Option ℕ → List FastData → Option ℕ
  last_height before [] = before
  last_height before (fd ∷ fds) = last_height (some fd.block_height) fds

  last_height-append :
      (before : Option ℕ) (xs ys : List FastData)
      → last_height before (xs ++ ys) ≡ last_height (last_height before xs) ys
  last_height-append before [] ys = refl
  last_height-append before (x ∷ xs) ys = last_height-append (some x.block_height) xs ys

  collect-append : (ks ls : List Str) → collect (ks ++ ls) ≡ collect ks ++ collect ls
  collect-append [] ls = refl
  collect-append (k ∷ ks) ls =
      ap (λ t. wanted k ++ t) (collect-append ks ls)
      ∙ sym (append_assoc (wanted k) (collect ks) (collect ls))

  -- A step that goes on has sent some fast data and nothing else.
  abbrev Sends : Progress → List FastData → KeyStep E → Type 0
  Sends p new s =
      (p' : Progress) × (s ≡ next_key p')
      × (p'.sent ≡ p.sent ++ new)
      × (p'.last_block ≡ last_height p.last_block new)

  handle_keys_next :
      (p p1 : Progress) (key : Str) (keys : List Str)
      → handle_key source from_block to_block p key ≡ next_key p1
      → handle_keys source from_block to_block p (key ∷ keys)
        ≡ handle_keys source from_block to_block p1 keys
  unfolding handle_keys
  handle_keys_next p p1 key keys h = ground (arith, h)

  stream_page_next :
      (keys : List Str) (replies : Replies E) (p p1 : Progress)
      → handle_keys source from_block to_block p keys ≡ next_key p1
      → stream_suffix_data source from_block to_block (page keys replies) p
        ≡ stream_suffix_data source from_block to_block replies p1
  unfolding stream_suffix_data
  stream_page_next keys replies p p1 h = ground (arith, h)

  module _ (reliable : IsReliable source) where
    Sends-nothing :
        (p : Progress) (key : Str)
        → handle_key source from_block to_block p key ≡ next_key p
        → wanted key ≡ []
        → Sends p (wanted key) (handle_key source from_block to_block p key)
    Sends-nothing p key e w = (p, e, rw w (sym (append-nil p.sent)), rw w refl)

    Sends-one :
        (p : Progress) (key : Str) (fastdata : FastData)
        → handle_key source from_block to_block p key ≡ send source from_block to_block p fastdata
        → wanted key ≡ fastdata ∷ []
        → Sends p (wanted key) (handle_key source from_block to_block p key)
    Sends-one p key fastdata e w = (
      record {
        sent = p.sent ++ fastdata ∷ [];
        had_data = true;
        last_block = some fastdata.block_height;
      },
      e ∙ unfold send in ground (arith, reliable.takes_all p.sent),
      rw w refl,
      rw w refl,
    )

    handle_key-Sends :
        (p : Progress) (key : Str)
        → Sends p (wanted key) (handle_key source from_block to_block p key)
    handle_key-Sends p key = elim (Option-cases (key_height key)) [
      | inl malformed ↦
          Sends-nothing p key (unfold handle_key in ground (arith, malformed))
            (ground (arith, malformed))
      | inr (height, there) ↦ elim (Bool-cases (ltb height from_block || ltb to_block height)) [
        | inl outside ↦
            Sends-nothing p key (unfold handle_key in ground (arith, there, outside))
              (ground (arith, there, outside))
        | inr inside ↦
            let (found, answer) = reliable.answers key in
            elim (Option-cases found) [
              | inl missing ↦
                  Sends-nothing p key
                    (unfold handle_key in ground (arith, there, inside, answer, missing))
                    (ground (arith, there, inside, answer, missing))
              | inr (json, stored) ↦ elim (Option-cases (source.from_str json)) [
                | inl unreadable ↦
                    Sends-nothing p key
                      (unfold handle_key in
                        ground (arith, there, inside, answer, stored, unreadable))
                      (ground (arith, there, inside, answer, stored, unreadable))
                | inr (fastdata, read) ↦
                    Sends-one p key fastdata
                      (unfold handle_key in ground (arith, there, inside, answer, stored, read))
                      (ground (arith, there, inside, answer, stored, read))
              ]
            ]
      ]
    ]

    handle_keys-Sends :
        (p : Progress) (keys : List Str)
        → Sends p (collect keys) (handle_keys source from_block to_block p keys)
    handle_keys-Sends p [] = (p, unfold handle_keys in refl, sym (append-nil p.sent), refl)
    handle_keys-Sends p (key ∷ keys) =
        let (p1, e1, s1, l1) = handle_key-Sends p key in
        let (p2, e2, s2, l2) = handle_keys-Sends p1 keys in
        (
          p2,
          handle_keys_next p p1 key keys e1 ∙ e2,
          s2 ∙ ap (λ t. t ++ collect keys) s1 ∙ append_assoc p.sent (wanted key) (collect keys),
          l2
              ∙ ap (λ t. last_height t (collect keys)) l1
              ∙ sym (last_height-append p.last_block (wanted key) (collect keys)),
        )

    -- A scan that ends has sent, in the order of its keys, all the fast data in the range, and its
    -- last block is that of the last fast data sent.
    pub stream_all :
        (replies : Replies E) (keys : List Str) (p : Progress)
        → all_keys replies ≡ some keys
        → (b : Bool) × (p' : Progress) × (stream_suffix_data source from_block to_block replies p
            ≡ (ok b, p'))
          × (p'.sent ≡ p.sent ++ collect keys)
          × (p'.last_block ≡ last_height p.last_block (collect keys))
    stream_all shutdown keys p h = absurd (ground (arith, h))
    stream_all (failed e) keys p h = absurd (ground (arith, h))
    stream_all (last_page ks) keys p h =
        let (p', e, s, l) = handle_keys-Sends p ks in
        let same : ks ≡ keys = ground (arith, h) in
        (
          p'.had_data,
          p',
          unfold stream_suffix_data in ground (arith, e),
          s ∙ ap (λ t. p.sent ++ collect t) same,
          l ∙ ap (λ t. last_height p.last_block (collect t)) same,
        )
    stream_all (page ks replies) keys p h = elim (Option-cases (all_keys replies)) [
      | inl cut ↦ absurd (ground (arith, h, cut))
      | inr (rest, more) ↦
          let same : ks ++ rest ≡ keys = ground (arith, h, more) in
          let (p1, e1, s1, l1) = handle_keys-Sends p ks in
          let (b, p2, e2, s2, l2) = stream_all replies rest p1 more in
          (
            b,
            p2,
            stream_page_next ks replies p p1 e1 ∙ e2,
            s2
                ∙ ap (λ t. t ++ collect rest) s1
                ∙ append_assoc p.sent (collect ks) (collect rest)
                ∙ ap (λ t. p.sent ++ t) (sym (collect-append ks rest) ∙ ap collect same),
            l2
                ∙ ap (λ t. last_height t (collect rest)) l1
                ∙ sym (last_height-append p.last_block (collect ks) (collect rest))
                ∙ ap (last_height p.last_block) (sym (collect-append ks rest) ∙ ap collect same),
          )
    ]

    -- A stream that is cut short by the flag reports success with what the pages before held.
    pub stream_cut :
        (keys : List Str) (p : Progress)
        → (p' : Progress) × (stream_suffix_data source from_block to_block (page keys shutdown) p
            ≡ (ok true, p'))
          × (p'.sent ≡ p.sent ++ collect keys)
          × (p'.last_block ≡ last_height p.last_block (collect keys))
    stream_cut keys p =
        let (p1, e1, s1, l1) = handle_keys-Sends p keys in
        (p1, stream_page_next keys shutdown p p1 e1 ∙ (unfold stream_suffix_data in refl), s1, l1)
