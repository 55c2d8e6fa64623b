-- ===== src/Stages/RollupNeighbor/Rounds.antt =====
-- Batches, evictions and restarts of the stage, and the `packets` column after them.
use mathlib.Core.List.{lookup}
use mathlib.Core.Option
use mesh_bug.Prelude.{
  ℕ, ◌+◌, ◌≡◌, refl, sym, ap, ◌∙◌, subst, true, false, Option, none, some, List, [], ◌∷◌, ◌++◌,
  arith, ◌⊎◌, inl, inr, Bool-cases,
}
use mesh_bug.Prelude.Maps.{
  IsMap, map_values-IsMap, lookup-map_values, delete_where, delete_where-IsMap, lookup-delete_where,
  kept,
}
use mesh_bug.Event.{Event, FloatOps, Time}
use mesh_bug.Store.{Db, NeighborRow}
use mesh_bug.Stages.RollupNeighbor.{
  NeighborKey, NeighborAccum, State, key_discrete, set_clean, load_totals, flush, merge_row, evict,
  evictable,
}
use mesh_bug.Stages.RollupNeighbor.Flush.{reloaded, row_then, clean, flush-Flushed}
use mesh_bug.Stages.RollupNeighbor.Counts.{stored, Accounts, packets_of, applied, applied-Accounts}

-- A batch with its high-water mark, or a restart of the program.
pub data Round (F : Type 0) : Type 0 where
  batch : List (Event F) → Time → Round F
  restart : Round F

module _ {F : Type 0} where
  -- The events of all batches.
  unfoldable pub all_events : List (Round F) → List (Event F)
  all_events [] = []
  all_events (batch es hwm ∷ xs) = es ++ all_events xs
  all_events (restart ∷ xs) = all_events xs

module _ {F : Type 0} (fl : FloatOps F) where
  unfoldable pub round : Round F → Db F × State F → Db F × State F
  round (batch es hwm) (d, s) =
      let (r, s', t) = flush fl (applied fl es s) (record { db = d; faults = [] }) in
      (t.db, evict hwm s')
  round restart (d, s) = (d, [])

  unfoldable pub run : List (Round F) → Db F × State F → Db F × State F
  unfolding round
  run [] w = w
  run (x ∷ xs) w = run xs (round x w)

  -- After a flush an entry is loaded and holds the total.
  abbrev Whole : Option (NeighborAccum F) → ℕ → Type 0
  Whole none n = Unit
  Whole (some acc) n = (acc.loaded ≡ true) × (acc.packets ≡ n)

  module _ (d : Db F) (u : IsMap key_discrete d.rollup_neighbor_1m) where
    flushed_entry :
        (o : Option (NeighborAccum F)) (row : Option (NeighborRow F)) (n : ℕ)
        → Accounts fl o row n
        → (stored fl (row_then fl d u (Option.map (reloaded fl row) o) row) ≡ n)
          × Whole (Option.map (clean fl d u) (Option.map (reloaded fl row) o)) n
    unfolding Accounts load_totals merge_row set_clean
    flushed_entry none row n a = (a, tt)
    flushed_entry (some acc) none n a = by_flags (Bool-cases acc.dirty) (Bool-cases acc.loaded)
      where
        after : NeighborAccum F
        after = reloaded fl none acc

        by_flags :
            (acc.dirty ≡ true) ⊎ (acc.dirty ≡ false)
            → (acc.loaded ≡ true) ⊎ (acc.loaded ≡ false)
            → (stored fl (row_then fl d u (some after) none) ≡ n)
              × Whole (some (clean fl d u after)) n
        by_flags (inl e) (inl l) =
            (ground (arith, e, l, a.total), (ground (arith, e, l), ground (arith, e, l, a.total)))
        by_flags (inl e) (inr l) =
            (ground (arith, e, l, a.total), (ground (arith, e, l), ground (arith, e, l, a.total)))
        by_flags (inr e) (inl l) = (
          ground (arith, e, l, a.clean_stored e),
          (ground (arith, e, l), ground (arith, e, l, a.total)),
        )
        by_flags (inr e) (inr l) = absurd (ground (arith, l, a.clean_loaded e))
    flushed_entry (some acc) (some row) n a =
        by_flags (Bool-cases acc.dirty) (Bool-cases acc.loaded)
      where
        after : NeighborAccum F
        after = reloaded fl (some row) acc

        by_flags :
            (acc.dirty ≡ true) ⊎ (acc.dirty ≡ false)
            → (acc.loaded ≡ true) ⊎ (acc.loaded ≡ false)
            → (stored fl (row_then fl d u (some after) (some row)) ≡ n)
              × Whole (some (clean fl d u after)) n
        by_flags (inl e) (inl l) =
            (ground (arith, e, l, a.total), (ground (arith, e, l), ground (arith, e, l, a.total)))
        by_flags (inl e) (inr l) =
            (ground (arith, e, l, a.total), (ground (arith, e, l), ground (arith, e, l, a.total)))
        by_flags (inr e) (inl l) = (
          ground (arith, e, l, a.clean_stored e),
          (ground (arith, e, l), ground (arith, e, l, a.total)),
        )
        by_flags (inr e) (inr l) = absurd (ground (arith, l, a.clean_loaded e))

  evicted_entry :
      (hwm : Time) (k : NeighborKey) (o : Option (NeighborAccum F)) (row : Option (NeighborRow F))
      (n : ℕ)
      → stored fl row ≡ n
      → Whole o n
      → Accounts fl (Option.map set_clean (kept key_discrete (evictable hwm) k o)) row n
  unfolding Accounts set_clean
  evicted_entry hwm k none row n s w = s
  evicted_entry hwm k (some acc) row n s w = elim (Bool-cases (evictable hwm k acc)) [
    | inl e ↦ rw e s
    | inr e ↦ rw e (record {
      total = ground (arith, w.0, w.1);
      clean_loaded = λ c. w.0;
      clean_stored = λ c. s;
    })
  ]

  -- Between rounds the table holds the totals, and so does every entry in memory.
  record Good (d : Db F) (s : State F) (n : NeighborKey → ℕ) : Type 0 where
    table_map : IsMap key_discrete d.rollup_neighbor_1m
    is_map : IsMap key_discrete s
    rows : (k : NeighborKey) → stored fl (lookup key_discrete k d.rollup_neighbor_1m) ≡ n k
    entries :
        (k : NeighborKey)
        → Accounts fl (lookup key_discrete k s) (lookup key_discrete k d.rollup_neighbor_1m) (n k)

  batch-Good :
      (d : Db F) (s : State F) (n : NeighborKey → ℕ) (es : List (Event F)) (hwm : Time)
      → Good d s n
      → let w = round (batch es hwm) (d, s) in Good w.0 w.1 (λ k. n k + packets_of fl k es)
  unfolding round evict
  batch-Good d s n es hwm g =
      let s₁ = applied fl es s in
      let accounts : ((k : NeighborKey)
          → IsMap key_discrete s₁
            × Accounts fl (lookup key_discrete k s₁) (lookup key_discrete k d.rollup_neighbor_1m)
                (n k + packets_of fl k es)) =
        λ k.
          applied-Accounts fl k es s (lookup key_discrete k d.rollup_neighbor_1m) (n k) g.is_map
            (g.entries k) in
      let (s₂, m', ran, f) = flush-Flushed fl d g.table_map s₁ (accounts ([], [], 0)).0 in
      let parts = λ (k : NeighborKey).
        flushed_entry d g.table_map (lookup key_discrete k s₁)
          (lookup key_discrete k d.rollup_neighbor_1m) (n k + packets_of fl k es) (accounts k).1 in
      let held = λ (k : NeighborKey).
        subst (λ o. Whole o (n k + packets_of fl k es)) (sym (f.entries k)) (parts k).1 in
      let written = λ (k : NeighborKey). ap (stored fl) (f.rows k) ∙ (parts k).0 in
      let done : (round (batch es hwm) (d, s)
          ≡ (record d { rollup_neighbor_1m = m' }, evict hwm s₂)) =
        ap (λ w. (w.2.db, evict hwm w.1)) ran in
      subst (λ w. Good w.0 w.1 (λ k. n k + packets_of fl k es)) (sym done)
        (record {
          table_map = f.table_map;
          is_map =
              map_values-IsMap key_discrete set_clean _
                (delete_where-IsMap key_discrete (evictable hwm) s₂ f.is_map);
          rows = written;
          entries = λ k.
              rw
                (
                  lookup-map_values key_discrete set_clean k (delete_where (evictable hwm) s₂),
                  lookup-delete_where key_discrete (evictable hwm) k s₂ f.is_map,
                )
                (evicted_entry hwm k (lookup key_discrete k s₂) (lookup key_discrete k m')
                  (n k + packets_of fl k es) (written k) (held k));
        })

  restart-Good : (d : Db F) (s : State F) (n : NeighborKey → ℕ) → Good d s n → Good d [] n
  unfolding Accounts lookup
  restart-Good d s n g = record {
    table_map = g.table_map;
    is_map = tt;
    rows = g.rows;
    entries = g.rows;
  }

  zero_plus : (n : ℕ) → n ≡ 0 + n
  zero_plus n = ground arith

  packets_of-append :
      (k : NeighborKey) (xs ys : List (Event F))
      → packets_of fl k (xs ++ ys) ≡ packets_of fl k xs + packets_of fl k ys
  unfolding packets_of
  packets_of-append k [] ys = zero_plus (packets_of fl k ys)
  packets_of-append k (x ∷ xs) ys = ground (arith, packets_of-append k xs ys)

  run-total :
      (xs : List (Round F)) (d : Db F) (s : State F) (n : NeighborKey → ℕ) (k : NeighborKey)
      → Good d s n
      → stored fl (lookup key_discrete k (run xs (d, s)).0.rollup_neighbor_1m)
        ≡ n k + packets_of fl k (all_events xs)
  unfolding run all_events packets_of
  run-total [] d s n k g = g.rows k ∙ ground arith
  run-total (batch es hwm ∷ xs) d s n k g =
      let w = round (batch es hwm) (d, s) in
      run-total xs w.0 w.1 (λ j. n j + packets_of fl j es) k (batch-Good d s n es hwm g)
      ∙ ground (arith, packets_of-append k es (all_events xs))
  run-total (restart ∷ xs) d s n k g = run-total xs d [] n k (restart-Good d s n g)

  -- From an empty table, when the server refuses nothing, the `packets` column of every key is the
  -- number of packets of the key among all events, whatever the batches, the high-water marks of
  -- the evictions and the restarts were; a key without a row counts as 0.
  pub run-packets_of :
      (d : Db F) (xs : List (Round F)) (k : NeighborKey)
      → d.rollup_neighbor_1m ≡ []
      → stored fl (lookup key_discrete k (run xs (d, [])).0.rollup_neighbor_1m)
        ≡ packets_of fl k (all_events xs)
  unfolding Accounts lookup
  run-packets_of d xs k e =
      run-total xs d [] (λ j. 0) k
        (record {
          table_map = rw e tt;
          is_map = tt;
          rows = λ j. rw e refl;
          entries = λ j. rw e refl;
        })
      ∙ sym (zero_plus (packets_of fl k (all_events xs)))
