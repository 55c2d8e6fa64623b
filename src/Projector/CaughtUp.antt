-- ===== src/Projector/CaughtUp.antt =====
-- A log that stands still and servers that refuse nothing: every raw event behind the cursor is
-- projected once, in order.
use mathlib.Core.List.{append_assoc, append-nil, map-append}
use mesh_bug.Prelude.{
  ℕ, zero, suc, ◌<◌, ◌≤◌, ◌≡◌, refl, sym, ap, subst, ◌∙◌, ltb, true, false, Option, some, List, [],
  ◌∷◌, ◌++◌, map, length, take, if◌then◌else◌, arith, Bool-cases, inl, inr,
}
use mesh_bug.Event.{FloatOps, Event}
use mesh_bug.Store.{Result, ok}
use mesh_bug.Pipeline.{process_batch}
use mesh_bug.Projection.{Memory, packet_stages, no_faults, Dated}
use mesh_bug.Projection.Applied.{Good}
use mesh_bug.Projection.Batch.{batch-Good, observed, observed_payload}
use mesh_bug.Stages.Observations.{columns_of}
use mesh_bug.Stages.Observations.Flush.{packets}
use mesh_bug.Notify.{Message}
use mesh_bug.RawLog.{RawEvent, fetch_raw_events_after}
use mesh_bug.Projector.Pending.{
  drop, Above, take-drop, highest-append, Above-append, Above-front, highest_le, fetch_pending,
  decoded-append,
}
use mesh_bug.Projector.Turns.{turns-stop, turns-again}
use mesh_bug.Projector.{
  Turn, Projector, stop, again, highest, decoded, after_batch, left_by, turn_rows, turn, turns,
  catch_up, batch_size, projector_name,
}

abbrev pub still : List RawEvent → ℕ → Turn
still rows i = record { rows = rows; unreadable = false; faults = no_faults }

module _ {F : Type 0} where
  observed-append : (xs ys : List (Event F)) → observed (xs ++ ys) ≡ observed xs ++ observed ys
  unfolding observed
  observed-append [] ys = refl
  observed-append (x ∷ xs) ys =
      ap (observed_payload x x.payload ++◌) (observed-append xs ys)
      ∙ sym (append_assoc (observed_payload x x.payload) (observed xs) (observed ys))

  Dated-front : (xs ys : List (Event F)) → Dated (xs ++ ys) → Dated xs
  Dated-front [] ys h = tt
  Dated-front (x ∷ xs) ys h = (h.0, Dated-front xs ys h.1)

  Dated-back : (xs ys : List (Event F)) → Dated (xs ++ ys) → Dated ys
  Dated-back [] ys h = h
  Dated-back (x ∷ xs) ys h = Dated-back xs ys h.1

module _ {F : Type 0} ⦃fl : FloatOps F⦄ where
  module _ (decode : RawEvent → Option (Event F)) where
    -- The projector after the rows `ys`.
    pub record CaughtUp (ys : List RawEvent) (p q : Projector F (Memory F) Message) : Type 0 where
      pub cursor : q.cursor ≡ highest p.cursor ys
      pub good : Good q.tables q.memory
      pub stored :
          packets q.tables ≡ packets p.tables ++ map columns_of (observed (decoded decode ys))

    -- One batch that is not empty.
    batch-CaughtUp :
        (r : RawEvent) (rs : List RawEvent) (p : Projector F (Memory F) Message)
        → 0 < highest 0 (r ∷ rs)
        → Dated (decoded decode (r ∷ rs))
        → Good p.tables p.memory
        → let o =
            process_batch packet_stages
              (decoded decode (r ∷ rs))
              projector_name
              (highest 0 (r ∷ rs))
              no_faults
              p.memory
              p.tables in
          (o.result ≡ ok tt)
          × CaughtUp (r ∷ rs) p (left_by decode packet_stages (highest 0 (r ∷ rs)) o)
    unfolding highest
    batch-CaughtUp r rs p pos dated g =
        let (e, g', k) =
          batch-Good p.tables p.memory (decoded decode (r ∷ rs)) projector_name (highest 0 (r ∷ rs))
            pos dated g in
        (e, record { cursor = refl; good = g'; stored = k })

    CaughtUp-nil : (p : Projector F (Memory F) Message) → Good p.tables p.memory → CaughtUp [] p p
    unfolding highest decoded observed
    CaughtUp-nil p g = record {
      cursor = refl;
      good = g;
      stored = sym (append-nil (packets p.tables));
    }

    CaughtUp-append :
        (xs ys : List RawEvent) (p q r : Projector F (Memory F) Message)
        → CaughtUp xs p q
        → CaughtUp ys q r
        → CaughtUp (xs ++ ys) p r
    CaughtUp-append xs ys p q r a b = record {
      cursor = b.cursor ∙ ap (λ h. highest h ys) a.cursor ∙ sym (highest-append p.cursor xs ys);
      good = b.good;
      stored =
          b.stored
          ∙ ap (λ k. k ++ map columns_of (observed (decoded decode ys))) a.stored
          ∙ append_assoc (packets p.tables) (map columns_of (observed (decoded decode xs))) _
          ∙ ap (packets p.tables ++◌) (
              sym (map-append columns_of (observed (decoded decode xs)) _)
              ∙ ap (map columns_of) (
                  sym (observed-append (decoded decode xs) (decoded decode ys))
                  ∙ ap observed (sym (decoded-append decode xs ys))));
    }

    turn-still :
        (xs ys rows : List RawEvent) (p : Projector F (Memory F) Message)
        → Above 0 rows
        → rows ≡ xs ++ ys
        → p.cursor ≡ highest 0 xs
        → turn decode packet_stages (still rows 0) p
          ≡ turn_rows decode packet_stages (take batch_size ys) no_faults p
    unfolding turn
    turn-still xs ys rows p ab e c =
        ap (λ rs. turn_rows decode packet_stages rs no_faults p)
          (ap (λ h. fetch_raw_events_after h batch_size rows) c
            ∙ ap (fetch_raw_events_after (highest 0 xs) batch_size) e
            ∙ fetch_pending xs ys batch_size (subst (Above 0) e ab))

    -- What is left when a batch is not full, and how much a batch takes.
    nothing_left : (n : ℕ) (xs : List RawEvent) → ltb (length (take n xs)) n ≡ true → drop n xs ≡ []
    nothing_left zero xs h = absurd (ground arith)
    nothing_left (suc n) [] h = refl
    nothing_left (suc n) (x ∷ xs) h = nothing_left n xs (ground (arith, h))

    length-drop : (n : ℕ) (xs : List RawEvent) → length (drop n xs) ≤ length xs
    length-drop zero xs = omega arith
    length-drop (suc n) [] = omega arith
    length-drop (suc n) (x ∷ xs) = omega (arith, length-drop n xs)

    turn-full :
        (y : RawEvent) (ys : List RawEvent) (p : Projector F (Memory F) Message)
        → 0 < highest 0 (y ∷ ys)
        → Dated (decoded decode (y ∷ ys))
        → Good p.tables p.memory
        → (q : Projector F (Memory F) Message) × CaughtUp (y ∷ ys) p q
          × (turn_rows decode packet_stages (y ∷ ys) no_faults p
              ≡ (if ltb (length (y ∷ ys)) batch_size then stop (ok tt) q else again q))
    turn-full y ys p pos dated g =
        let h = highest 0 (y ∷ ys) in
        let o =
          process_batch packet_stages (decoded decode (y ∷ ys)) projector_name h no_faults p.memory
            p.tables in
        let (e, k) = batch-CaughtUp y ys p pos dated g in
        (
          left_by decode packet_stages h o,
          k,
          ap (λ r. after_batch decode packet_stages (length (y ∷ ys)) h p r o) e,
        )

    -- A return without an error, caught up with `ys`.
    abbrev pub Finished :
        List RawEvent
        → Projector F (Memory F) Message
        → Option (Result (Unit {0}) × Projector F (Memory F) Message)
        → Type 0
    Finished ys p o = (q : Projector F (Memory F) Message) × (o ≡ some (ok tt, q)) × CaughtUp ys p q

    positive :
        (xs : List RawEvent) (y : RawEvent) (ys : List RawEvent)
        → Above 0 (xs ++ y ∷ ys)
        → 0 < highest 0 (y ∷ ys)
    unfolding highest
    positive xs y ys ab =
        let a = Above-append 0 xs (y ∷ ys) ab in omega (arith, a.0, highest_le y.id ys a.1)

    turns-still :
        (n : ℕ) (xs ys rows : List RawEvent) (p : Projector F (Memory F) Message)
        → Above 0 rows
        → rows ≡ xs ++ ys
        → p.cursor ≡ highest 0 xs
        → Dated (decoded decode ys)
        → Good p.tables p.memory
        → length ys ≤ n
        → Finished ys p (turns decode packet_stages (suc n) (still rows) p)
    turns-still n xs [] rows p ab e c dated g le = (
      p,
      turns-stop decode packet_stages n (still rows) p p (ok tt) (turn-still xs [] rows p ab e c),
      CaughtUp-nil p g,
    )
    turns-still zero xs (y ∷ ys) rows p ab e c dated g le = absurd (omega (arith, le))
    turns-still (suc n) xs (y ∷ ys) rows p ab e c dated g le =
        let zs = take 499 ys in
        let rest = drop 499 ys in
        let cut : y ∷ ys ≡ (y ∷ zs) ++ rest = ap (y ∷◌) (sym (take-drop 499 ys)) in
        let ab' : Above 0 (xs ++ ((y ∷ zs) ++ rest)) = subst (Above 0) (e ∙ ap (xs ++◌) cut) ab in
        let ab'' : Above 0 ((xs ++ y ∷ zs) ++ rest) =
          subst (Above 0) (sym (append_assoc xs (y ∷ zs) rest)) ab' in
        let days : Dated (decoded decode (y ∷ zs) ++ decoded decode rest) =
          subst Dated (ap (decoded decode) cut ∙ decoded-append decode (y ∷ zs) rest) dated in
        let pos = positive xs y zs (Above-front 0 (xs ++ y ∷ zs) rest ab'') in
        let (q, k, t) =
          turn-full y zs p pos (Dated-front (decoded decode (y ∷ zs)) (decoded decode rest) days)
            g in
        let u : turn decode packet_stages (still rows 0) p
            ≡ (if ltb (length (y ∷ zs)) batch_size then stop (ok tt) q else again q) =
          turn-still xs (y ∷ ys) rows p ab e c ∙ t in
        elim (Bool-cases (ltb (length (y ∷ zs)) batch_size)) [
          | inl full ↦ (
            q,
            turns-stop decode packet_stages (suc n) (still rows) p q (ok tt)
                (u ∙ ap (λ b. if b then stop (ok tt) q else again q) full),
            subst (λ r. CaughtUp r p q)
                (sym
                  (cut ∙ ap ((y ∷ zs) ++◌) (nothing_left 500 (y ∷ ys) full) ∙ append-nil (y ∷ zs)))
                k,
          )
          | inr more ↦
              let (q', f, k') =
                turns-still n (xs ++ y ∷ zs) rest rows q ab
                  (e ∙ ap (xs ++◌) cut ∙ sym (append_assoc xs (y ∷ zs) rest))
                  (k.cursor ∙ ap (λ h. highest h (y ∷ zs)) c ∙ sym (highest-append 0 xs (y ∷ zs)))
                  (Dated-back (decoded decode (y ∷ zs)) (decoded decode rest) days) k.good
                  (omega (arith, le, length-drop 499 ys)) in
              (
                q',
                turns-again decode packet_stages (suc n) (still rows) p q
                      (u ∙ ap (λ b. if b then stop (ok tt) q else again q) more)
                    ∙ f,
                subst (λ r. CaughtUp r p q') (sym cut) (CaughtUp-append (y ∷ zs) rest p q q' k k'),
              )
        ]

    -- When the log has ascending positive identifiers and does not change, the cursor stands behind
    -- the rows `xs`, events have times, memory and tables agree and nothing is refused, `catchUp`
    -- returns without an error after at most one turn more than there are rows behind the cursor;
    -- then the cursor is the last identifier, memory and tables agree, and the packets of the rows
    -- behind the cursor are stored behind the others, each once and in order, with the snr as its
    -- numeric(6,2) column keeps it.
    pub catch_up-Finished :
        (n : ℕ) (xs ys : List RawEvent) (p : Projector F (Memory F) Message)
        → Above 0 (xs ++ ys)
        → p.cursor ≡ highest 0 xs
        → Dated (decoded decode ys)
        → Good p.tables p.memory
        → length ys ≤ n
        → Finished ys p (catch_up decode packet_stages (suc n) false (still (xs ++ ys)) p)
    unfolding catch_up
    catch_up-Finished n xs ys p ab c dated g le =
        turns-still n xs ys (xs ++ ys) p ab refl c dated g le
