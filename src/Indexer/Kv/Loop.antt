-- ===== src/Indexer/Kv/Loop.antt =====
-- Sequences of updates that the loop passes, over any sink that keeps what it takes.
use key_manager.Base.{
  ℕ, ◌≡◌, refl, sym, ap, ◌∙◌, subst, ◌⊎◌, inl, inr, Bool, ◌&&◌, not, Option, none, some, List, [],
  ◌∷◌, ◌++◌, append_assoc, append-nil, ok, length, leb, All, All-append, arith, Bool-cases,
  Option-cases, Result-cases,
}
use key_manager.Indexer.RedisDb.{FastDataKv}
use key_manager.Indexer.Kv.{
  Decoding, parse_kv_entries, SuffixFetcherUpdate, fast_data, end_of_range, Sink, State, Next,
  continue, break, flush_rows, flush_all, handle, early_flush,
}

-- What the loop relies on: the entries of a batch that reports success are stored, and stay so.
pub record Keeps {W E : Type 0} (sink : Sink W E) (Has : FastDataKv → W → Type 0) : Type 0 where
  pub batch_stores :
      (kvs : List FastDataKv) (w : W) (u : Unit {0})
      → (sink.add_kv_batch kvs w).0 ≡ ok u
      → All (λ kv. Has kv (sink.add_kv_batch kvs w).1) kvs
  pub batch_keeps :
      (kv : FastDataKv) (kvs : List FastDataKv) (w : W)
      → Has kv w
      → Has kv (sink.add_kv_batch kvs w).1
  pub set_keeps :
      (kv : FastDataKv) (height : ℕ) (w : W)
      → Has kv w
      → Has kv (sink.set_last_processed_block_height height w).1

All-map :
    {A : Type 0} {P Q : A → Type 0} (xs : List A) → ((x : A) → P x → Q x) → All P xs → All Q xs
All-map [] f h = tt
All-map (x ∷ xs) f (h, hs) = (f x h, All-map xs f hs)

module _ {W E : Type 0} (d : Decoding) (sink : Sink W E) where
  -- The loop passes a sequence of updates and goes on.
  pub data Steps : List (SuffixFetcherUpdate × Bool) → State W → State W → Type 0 where
    done : (s : State W) → Steps [] s s
    step :
        (update : SuffixFetcherUpdate) (stopped : Bool)
        {updates : List (SuffixFetcherUpdate × Bool)} (s s' s'' : State W)
        → handle d sink update stopped s ≡ continue s'
        → Steps updates s' s''
        → Steps ((update, stopped) ∷ updates) s s''

  -- The entries of the fast data among the updates, in order.
  abbrev pub entries_of : SuffixFetcherUpdate → List FastDataKv
  entries_of (fast_data fastdata) = parse_kv_entries d fastdata
  entries_of (end_of_range height) = []

  abbrev pub received : List (SuffixFetcherUpdate × Bool) → List FastDataKv
  received [] = []
  received ((update, stopped) ∷ updates) = entries_of update ++ received updates

  flush_all_continue :
      (rows : List FastDataKv) (checkpoint : Option ℕ) (s s' : State W)
      → flush_all d sink rows checkpoint s ≡ continue s'
      → (u : Unit {0}) × ((sink.add_kv_batch rows s.database).0 ≡ ok u)
        × (s'.rows ≡ [])
        × (((s'.database ≡ (sink.add_kv_batch rows s.database).1) × (checkpoint ≡ none))
            ⊎ ((height : ℕ) × (checkpoint ≡ some height)
                × (s'.database
                    ≡ (sink.set_last_processed_block_height height
                        (sink.add_kv_batch rows s.database).1).1)))
  flush_all_continue rows checkpoint s s' h =
      elim (Result-cases (sink.add_kv_batch rows s.database).0) [
        | inr (e, bad) ↦ absurd (unfold flush_all flush_rows in ground (arith, bad, h))
        | inl (u, good) ↦ elim (Option-cases checkpoint) [
          | inl without ↦ (
            u,
            good,
            unfold flush_all flush_rows in ground (arith, good, without, h),
            inl (unfold flush_all flush_rows in ground (arith, good, without, h), without),
          )
          | inr (height, given) ↦
              elim (Result-cases
                (sink.set_last_processed_block_height height
                  (sink.add_kv_batch rows s.database).1).0) [
                    | inl (v, set) ↦ (
                      u,
                      good,
                      unfold flush_all flush_rows in ground (arith, good, given, set, h),
                      inr (
                        height,
                        given,
                        unfold flush_all flush_rows in ground (arith, good, given, set, h),
                      ),
                    )
                    | inr (e, bad) ↦
                        absurd (unfold flush_all flush_rows in ground (arith, good, given, bad, h))
                  ]
        ]
      ]

  Next-cases : (n : Next W) → ((s : State W) × (n ≡ continue s)) ⊎ ((s : State W) × (n ≡ break s))
  Next-cases (continue s) = inl (s, refl)
  Next-cases (break s) = inr (s, refl)

  end_continues :
      (height : ℕ) (stopped : Bool) (s s' : State W)
      → handle d sink (end_of_range height) stopped s ≡ continue s'
      → flush_all d sink s.rows (some height) s ≡ continue s'
  end_continues height stopped s s' h =
      elim (Next-cases (flush_all d sink s.rows (some height) s)) [
        | inr (t, breaks) ↦ absurd (unfold handle in ground (arith, breaks, h))
        | inl (t, goes_on) ↦ elim (Bool-cases (t.is_running && not stopped)) [
          | inl on ↦ goes_on ∙ (unfold handle in ground (arith, goes_on, on, h))
          | inr off ↦ absurd (unfold handle in ground (arith, goes_on, off, h))
        ]
      ]

  module _ (Has : FastDataKv → W → Type 0) (keeps : Keeps sink Has) where
    -- A flush that the loop survives stores its rows and loses none.
    flush_all-Has :
        (rows : List FastDataKv) (checkpoint : Option ℕ) (s s' : State W)
        → flush_all d sink rows checkpoint s ≡ continue s'
        → (s'.rows ≡ [])
          × All (λ kv. Has kv s'.database) rows
          × ((kv : FastDataKv) → Has kv s.database → Has kv s'.database)
    flush_all-Has rows checkpoint s s' h =
        let (u, good, empty, how) = flush_all_continue rows checkpoint s s' h in
        elim how [
          | inl (same, _) ↦ (
            empty,
            subst (λ w. All (λ kv. Has kv w) rows) (sym same)
                (keeps.batch_stores rows s.database u good),
            λ kv k. subst (Has kv) (sym same) (keeps.batch_keeps kv rows s.database k),
          )
          | inr (height, _, same) ↦ (
            empty,
            subst (λ w. All (λ kv. Has kv w) rows) (sym same)
                (All-map rows
                  (λ kv. keeps.set_keeps kv height (sink.add_kv_batch rows s.database).1)
                  (keeps.batch_stores rows s.database u good)),
            λ kv k.
                subst (Has kv) (sym same)
                  (keeps.set_keeps kv height _ (keeps.batch_keeps kv rows s.database k)),
          )
        ]

    -- What is flushed in a round, and that nothing else is lost.
    abbrev pub Flushed : List FastDataKv → State W → State W → Type 0
    Flushed new s s' =
        (flushed : List FastDataKv) × (s.rows ++ new ≡ flushed ++ s'.rows)
        × All (λ kv. Has kv s'.database) flushed
        × ((kv : FastDataKv) → Has kv s.database → Has kv s'.database)

    handle-Flushed :
        (update : SuffixFetcherUpdate) (stopped : Bool) (s s' : State W)
        → handle d sink update stopped s ≡ continue s'
        → Flushed (entries_of update) s s'
    handle-Flushed (fast_data fastdata) stopped s s' h =
        elim (Bool-cases (leb early_flush (length (s.rows ++ parse_kv_entries d fastdata)))) [
          | inl many ↦
              let (empty, stored, kept) =
                flush_all-Has (s.rows ++ parse_kv_entries d fastdata) none s s'
                  (unfold handle in ground (arith, many, h)) in
              (
                s.rows ++ parse_kv_entries d fastdata,
                sym (
                    ap (λ t. (s.rows ++ parse_kv_entries d fastdata) ++ t) empty
                    ∙ append-nil (s.rows ++ parse_kv_entries d fastdata)),
                stored,
                kept,
              )
          | inr few ↦
              let same : s' ≡ record s { rows = s.rows ++ parse_kv_entries d fastdata } =
                unfold handle in ground (arith, few, h) in
              (
                [],
                ap (λ t. t.rows) (sym same),
                tt,
                λ kv k. subst (λ t. Has kv t.database) (sym same) k,
              )
        ]
    handle-Flushed (end_of_range height) stopped s s' h =
        let (empty, stored, kept) =
          flush_all-Has s.rows (some height) s s' (end_continues height stopped s s' h) in
        (
          s.rows,
          append-nil s.rows ∙ sym (ap (λ t. s.rows ++ t) empty ∙ append-nil s.rows),
          stored,
          kept,
        )

    -- After any sequence of updates that the loop has passed, what it had in its buffer and what it
    -- received is, in order, first entries that are in the database and then those in the buffer.
    pub Steps-Flushed :
        (updates : List (SuffixFetcherUpdate × Bool)) (s s' : State W)
        → Steps updates s s'
        → Flushed (received updates) s s'
    Steps-Flushed [] s s' (done _) = ([], append-nil s.rows, tt, λ kv h. h)
    Steps-Flushed _ s s' (step update stopped {updates} _ next _ e rest) =
        let (f, split, stored, kept) = handle-Flushed update stopped s next e in
        let (f', split', stored', kept') = Steps-Flushed updates next s' rest in
        (
          f ++ f',
          sym (append_assoc s.rows (entries_of update) (received updates))
              ∙ ap (λ t. t ++ received updates) split
              ∙ append_assoc f next.rows (received updates)
              ∙ ap (λ t. f ++ t) split'
              ∙ sym (append_assoc f f' s'.rows),
          All-append (λ kv. Has kv s'.database) f f' (All-map f kept' stored) stored',
          λ kv h. kept' kv (kept kv h),
        )

    -- Over a database that keeps what it reports as stored: if the loop goes on from the end of a
    -- range, all entries of the fast data received before are in the database, with what the buffer
    -- held at first, and the buffer is empty.
    pub end_of_range-Has :
        (updates : List (SuffixFetcherUpdate × Bool)) (height : ℕ) (stopped : Bool)
        (s s' s'' : State W)
        → Steps updates s s'
        → handle d sink (end_of_range height) stopped s' ≡ continue s''
        → (s''.rows ≡ []) × All (λ kv. Has kv s''.database) (s.rows ++ received updates)
    end_of_range-Has updates height stopped s s' s'' steps h =
        let (f, split, stored, _) = Steps-Flushed updates s s' steps in
        let (empty, rest, kept) =
          flush_all-Has s'.rows (some height) s' s'' (end_continues height stopped s' s'' h) in
        (
          empty,
          subst (All (λ kv. Has kv s''.database)) (sym split)
              (All-append (λ kv. Has kv s''.database) f s'.rows (All-map f kept stored) rest),
        )
