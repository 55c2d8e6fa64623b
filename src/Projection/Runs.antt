-- ===== src/Projection/Runs.antt =====
-- Any number of batches and restarts, and what `packets_unique` says after them.
use mathlib.Core.List.{lookup, append-nil, append_assoc, map-append}
use mathlib.Core.Option
use mesh_bug.Prelude.{
  ℕ, ◌<◌, ◌≡◌, ◌≢◌, refl, sym, ap, ◌∙◌, Option, none, some, List, [], ◌∷◌, ◌++◌, Bytes,
  bytes_discrete, map,
}
use mesh_bug.Prelude.Sets.{distinct}
use mesh_bug.Event.{FloatOps, Event}
use mesh_bug.Store.{Db, PacketRow, UniqueRow}
use mesh_bug.Pipeline.{process_batch}
use mesh_bug.Projection.{Memory, start, packet_stages, no_faults, Dated}
use mesh_bug.Projection.Applied.{Good}
use mesh_bug.Projection.Batch.{batch-Good, observed}
use mesh_bug.Stages.Observations.{columns_of}
use mesh_bug.Stages.Unique.Columns.{summary-columns_of, observers-columns_of}
use mesh_bug.Stages.Unique.Flush.{row_of}
use mesh_bug.Stages.Unique.Memory.{RowOk}
use mesh_bug.Stages.Unique.Facts.{Facts, facts_of, summary, observers_of}
use mesh_bug.Stages.Observations.Flush.{packets}

-- What happens to a projector: a batch that ends at a raw event, or a restart of the program.
pub data Step (F : Type 0) : Type 0 where
  batch : List (Event F) → ℕ → Step F
  restart : Step F

-- What a row says: an unknown text is empty.
abbrev pub says : UniqueRow → Facts × ℕ
says r = (facts_of r, r.observer_count)

module _ {F : Type 0} ⦃fl : FloatOps F⦄ (name : Bytes) where
  unfoldable pub step : Step F → Db F × Memory F → Db F × Memory F
  step (batch es c) (d, s) =
      let o = process_batch packet_stages es name c no_faults s d in (o.tables, o.memory)
  step restart (d, s) = (d, start)

  unfoldable pub run : List (Step F) → Db F × Memory F → Db F × Memory F
  unfolding step
  run [] w = w
  run (x ∷ xs) w = run xs (step x w)

module _ {F : Type 0} where
  -- Events have times and raw events have positive identifiers.
  abbrev pub Proper : List (Step F) → Type 0
  Proper [] = Unit
  Proper (batch es c ∷ xs) = ((0 < c) × Dated es) × Proper xs
  Proper (restart ∷ xs) = Proper xs

  -- The packets of all batches, as observations.
  unfoldable pub all_observed : List (Step F) → List (PacketRow F)
  all_observed [] = []
  all_observed (batch es c ∷ xs) = observed es ++ all_observed xs
  all_observed (restart ∷ xs) = all_observed xs

  -- What the observations call for of the hash `h`.
  unfoldable pub described : Bytes → List (PacketRow F) → Option (Facts × ℕ)
  described h obs =
      Option.map (λ f. (f, distinct bytes_discrete (observers_of h obs))) (summary h obs)

  pub RowOk-described :
      (h : Bytes) (row : Option UniqueRow) (obs : List (PacketRow F))
      → RowOk h row obs
      → Option.map says row ≡ described h obs
  unfolding described
  RowOk-described h none obs ok =
      ap (Option.map (λ f. (f, distinct bytes_discrete (observers_of h obs)))) ok.facts
  RowOk-described h (some r) obs ok =
      ap (λ n. some (facts_of r, n)) (ok.count r refl)
      ∙ ap (Option.map (λ f. (f, distinct bytes_discrete (observers_of h obs)))) ok.facts

  restart-Good : (d : Db F) (s : Memory F) → Good d s → Good d start
  unfolding lookup
  restart-Good d s g = record {
    is_map = tt;
    row_ok = g.row_ok;
    settled = λ h ne. tt;
    buffered = refl;
  }

module _ {F : Type 0} ⦃fl : FloatOps F⦄ where
  pub described-columns_of :
      (h : Bytes) (obs : List (PacketRow F)) → described h (map columns_of obs) ≡ described h obs
  unfolding described
  described-columns_of h obs = λ i.
      Option.map (λ f. (f, distinct bytes_discrete (observers-columns_of h [] obs i)))
        (summary-columns_of h [] obs i)

  module _ (name : Bytes) where
    run-Good :
        (xs : List (Step F)) (d : Db F) (s : Memory F)
        → Proper xs
        → Good d s
        → let w = run name xs (d, s) in
          Good w.0 w.1 × (packets w.0 ≡ packets d ++ map columns_of (all_observed xs))
    unfolding run all_observed
    run-Good [] d s p g = (g, sym (append-nil (packets d)))
    run-Good (batch es c ∷ xs) d s p g =
        let o = process_batch packet_stages es name c no_faults s d in
        let (_, g', e) = batch-Good d s es name c p.0.0 p.0.1 g in
        let (g'', e') = run-Good xs o.tables o.memory p.1 g' in
        (
          g'',
          e'
              ∙ ap (λ q. q ++ map columns_of (all_observed xs)) e
              ∙ append_assoc (packets d) (map columns_of (observed es)) _
              ∙ ap (packets d ++◌) (sym (map-append columns_of (observed es) (all_observed xs))),
        )
    run-Good (restart ∷ xs) d s p g = run-Good xs d start p (restart-Good d s g)

    -- Empty tables and a new memory agree.
    pub empty-Good : (d : Db F) → d.packet_observations ≡ [] → d.packets_unique ≡ [] → Good d start
    unfolding lookup summary observers_of
    empty-Good d no_packets no_rows = record {
      is_map = tt;
      row_ok = λ h ne. rw (no_packets, no_rows) (record { facts = refl; count = λ r e. cc });
      settled = λ h ne. tt;
      buffered = refl;
    }

    -- From empty tables, whatever the batches are cut at, whatever was evicted from memory between
    -- them and whenever the program was restarted: when the server refuses nothing, events have
    -- times and the raw identifiers are positive, the row of every hash that is not empty says what
    -- all the observations of the hash say together: the first and the last time, the latest known
    -- type, route and decoded type, the first known source prefix and the number of observers.
    pub run-row :
        (d : Db F) (xs : List (Step F)) (h : Bytes)
        → d.packet_observations ≡ []
        → d.packets_unique ≡ []
        → Proper xs
        → h ≢ []
        → Option.map says (row_of (run name xs (d, start)).0 h) ≡ described h (all_observed xs)
    run-row d xs h no_packets no_rows p ne =
        let (g, e) = run-Good xs d start p (empty-Good d no_packets no_rows) in
        RowOk-described h _ _ (g.row_ok h ne)
        ∙ ap (described h)
            (e ∙ ap (λ q. map (λ o. o.packet) q ++ map columns_of (all_observed xs)) no_packets)
        ∙ described-columns_of h (all_observed xs)

    -- From tables without rows or observations, when the server refuses nothing, events have
    -- times and the raw identifiers are positive, the stored observations are those of all batches,
    -- each once and in order, with the snr as its numeric(6,2) column keeps it.
    pub run-packets :
        (d : Db F) (xs : List (Step F))
        → d.packet_observations ≡ []
        → d.packets_unique ≡ []
        → Proper xs
        → packets (run name xs (d, start)).0 ≡ map columns_of (all_observed xs)
    run-packets d xs no_packets no_rows p =
        (run-Good xs d start p (empty-Good d no_packets no_rows)).1
        ∙ ap (λ q. map (λ o. o.packet) q ++ map columns_of (all_observed xs)) no_packets

    -- From tables without rows or observations, when the server refuses nothing, events have
    -- times and the raw identifiers are positive, two ways to cut
    -- the same packets into batches, with restarts anywhere, leave rows that say the same of every
    -- hash that is not empty.
    pub run-same_rows :
        (d : Db F) (xs ys : List (Step F)) (h : Bytes)
        → d.packet_observations ≡ []
        → d.packets_unique ≡ []
        → Proper xs
        → Proper ys
        → h ≢ []
        → all_observed xs ≡ all_observed ys
        → Option.map says (row_of (run name xs (d, start)).0 h)
          ≡ Option.map says (row_of (run name ys (d, start)).0 h)
    run-same_rows d xs ys h no_packets no_rows p q ne same =
        run-row d xs h no_packets no_rows p ne
        ∙ ap (described h) same
        ∙ sym (run-row d ys h no_packets no_rows q ne)
