-- ===== src/Stages/RollupNeighbor/Flush.antt =====
-- `Flush` of the stage when the server refuses nothing: the row of each key.
use mathlib.Core.List.{lookup}
use mathlib.Core.Option
use mesh_bug.Prelude.{
  ◌≡◌, refl, ap, ◌∙◌, Bool, true, false, not, ◌&&◌, ◌||◌, Option, none, some, List, [], ◌∷◌,
  if◌then◌else◌, is_nil, ite, foldl, arith, ◌⊎◌, inl, inr, Bool-cases, Option-cases,
}
use mesh_bug.Prelude.Maps.{
  Map, IsMap, lookup-put, put-IsMap, map_values, map_values-IsMap, lookup-map_values,
}
use mesh_bug.Prelude.Sets.{contains}
use mesh_bug.Event.{FloatOps}
use mesh_bug.Store.{Db, NeighborRow, ok}
use mesh_bug.Stages.Loop.{write_dirty_lem, lookup-written, written-IsMap, row_after}
use mesh_bug.Stages.RollupNeighbor.{
  NeighborKey, NeighborAccum, State, key_discrete, neighbor_table, pending, rows_in, mark_loaded,
  set_clean, load_totals, load_row, rehydrate_unloaded, write_rows, flush, merge_row,
}

nil-cases : (xs : List NeighborKey) → (xs ≡ []) ⊎ (is_nil xs ≡ false)
nil-cases [] = inl refl
nil-cases (x ∷ xs) = inr refl

module _ {F : Type 0} where
  abbrev is_pending : Option (NeighborAccum F) → Bool
  is_pending none = false
  is_pending (some acc) = not (acc.loaded || not acc.dirty)

  contains-pending :
      (k : NeighborKey) (s : State F)
      → IsMap key_discrete s
      → contains key_discrete k (pending s) ≡ is_pending (lookup key_discrete k s)
  unfolding pending lookup contains
  contains-pending k [] m = refl
  contains-pending k ((j, acc) ∷ s) m =
      ground (arith, contains-pending k s m.1, contains-pending j s m.1)

  -- the stored row of a key that is asked for
  abbrev asked : Bool → Option (NeighborRow F) → Option (NeighborRow F)
  asked true row = row
  asked false row = none

module _ {F : Type 0} (fl : FloatOps F) where
  abbrev pub merged : Option (NeighborRow F) → NeighborAccum F → NeighborAccum F
  merged none acc = acc
  merged (some r) acc = load_totals fl r acc

  lookup-load_row :
      (k j : NeighborKey) (r : NeighborRow F) (s : State F)
      → lookup key_discrete k (load_row fl s (j, r))
        ≡ Option.map (merged (ite (key_discrete j k) (some r) none)) (lookup key_discrete k s)
  unfolding load_row
  lookup-load_row k j r s = elim (Option-cases (lookup key_discrete j s)) [
    | inl e ↦ ground (arith, e)
    | inr (acc, e) ↦ ground (arith, e, lookup-put key_discrete j k (load_totals fl r acc) s)
  ]

  load_row-IsMap :
      (s : State F) (x : NeighborKey × NeighborRow F)
      → IsMap key_discrete s
      → IsMap key_discrete (load_row fl s x)
  unfolding load_row
  load_row-IsMap s (j, r) m = elim (Option-cases (lookup key_discrete j s)) [
    | inl e ↦ rw (e, load_row) m
    | inr (acc, e) ↦ rw (e, load_row) (put-IsMap key_discrete j (load_totals fl r acc) s m)
  ]

  load_rows-IsMap :
      (rows : List (NeighborKey × NeighborRow F)) (s : State F)
      → IsMap key_discrete s
      → IsMap key_discrete (foldl (load_row fl) s rows)
  load_rows-IsMap [] s m = m
  load_rows-IsMap (x ∷ rows) s m = load_rows-IsMap rows (load_row fl s x) (load_row-IsMap s x m)

  merged-none : (o : Option (NeighborAccum F)) → o ≡ Option.map (merged none) o
  merged-none none = refl
  merged-none (some acc) = refl

  lookup-load_rows :
      (k : NeighborKey) (keys : List NeighborKey) (m : Map NeighborKey (NeighborRow F))
      (s : State F)
      → IsMap key_discrete m
      → lookup key_discrete k (foldl (load_row fl) s (rows_in keys m))
        ≡ Option.map
            (merged (asked (contains key_discrete k keys) (lookup key_discrete k m)))
            (lookup key_discrete k s)
  unfolding rows_in lookup
  lookup-load_rows k keys [] s u = ground (arith, merged-none (lookup key_discrete k s))
  lookup-load_rows k keys ((j, r) ∷ m) s u = ground (
    arith,
    lookup-load_rows k keys m s u.1,
    lookup-load_rows k keys m (load_row fl s (j, r)) u.1,
    lookup-load_row k j r s,
    u.0,
  )

  -- The entry of a key after `rehydrateUnloaded`.
  abbrev pub reloaded : Option (NeighborRow F) → NeighborAccum F → NeighborAccum F
  reloaded row acc =
      if not acc.loaded && acc.dirty then record (merged row acc) { loaded = true } else acc

  merged-flags :
      (row : Option (NeighborRow F)) (acc : NeighborAccum F)
      → ((merged row acc).loaded ≡ acc.loaded) × ((merged row acc).dirty ≡ acc.dirty)
  unfolding load_totals
  merged-flags none acc = (refl, refl)
  merged-flags (some r) acc = (refl, refl)

  marked :
      (row : Option (NeighborRow F)) (acc : NeighborAccum F)
      → mark_loaded (merged (asked (is_pending (some acc)) row) acc) ≡ reloaded row acc
  unfolding mark_loaded
  marked row acc = elim (Bool-cases acc.loaded) [
    | inl l ↦ ground (arith, l)
    | inr l ↦ elim (Bool-cases acc.dirty) [
      | inl d ↦ ground (arith, l, d, merged-flags row acc)
      | inr d ↦ ground (arith, l, d)
    ]
  ]

  module _ (d : Db F) (u : IsMap key_discrete d.rollup_neighbor_1m) where
    abbrev pub row_of : NeighborKey → Option (NeighborRow F)
    row_of k = lookup key_discrete k d.rollup_neighbor_1m

    record Rehydrated (s s' : State F) : Type 0 where
      is_map : IsMap key_discrete s'
      entries :
          (k : NeighborKey)
          → lookup key_discrete k s' ≡ Option.map (reloaded (row_of k)) (lookup key_discrete k s)

    loaded_rows :
        (s : State F)
        → IsMap key_discrete s
        → Rehydrated s (
            map_values mark_loaded
              (foldl (load_row fl) s (rows_in (pending s) d.rollup_neighbor_1m)))
    loaded_rows s m = record {
      is_map =
          map_values-IsMap key_discrete mark_loaded _
            (load_rows-IsMap (rows_in (pending s) d.rollup_neighbor_1m) s m);
      entries = λ k.
          lookup-map_values key_discrete mark_loaded k _
          ∙ ap (Option.map mark_loaded) (lookup-load_rows k (pending s) d.rollup_neighbor_1m s u)
          ∙ same k (lookup key_discrete k s) (contains-pending k s m);
    }
      where
        same :
            (k : NeighborKey) (o : Option (NeighborAccum F))
            → contains key_discrete k (pending s) ≡ is_pending o
            → Option.map mark_loaded
                (Option.map (merged (asked (contains key_discrete k (pending s)) (row_of k))) o)
              ≡ Option.map (reloaded (row_of k)) o
        same k none e = refl
        same k (some acc) e =
            ap (λ b. some (mark_loaded (merged (asked b (row_of k)) acc))) e
            ∙ ap some (marked (row_of k) acc)

    idle : (s : State F) → IsMap key_discrete s → pending s ≡ [] → Rehydrated s s
    unfolding contains
    idle s m e = record {
      is_map = m;
      entries = λ k. same k (lookup key_discrete k s) (rw e at (contains-pending k s m));
    }
      where
        same :
            (k : NeighborKey) (o : Option (NeighborAccum F))
            → contains key_discrete k [] ≡ is_pending o
            → o ≡ Option.map (reloaded (row_of k)) o
        same k none p = refl
        same k (some acc) p = ground (arith, p)

    rehydrate :
        (s : State F)
        → IsMap key_discrete s
        → (s' : State F) × (rehydrate_unloaded fl s (record { db = d; faults = [] })
            ≡ (ok tt, s', record { db = d; faults = [] }))
          × Rehydrated s s'
    unfolding rehydrate_unloaded
    rehydrate s m = elim (nil-cases (pending s)) [
      | inl e ↦ (s, rw e refl, idle s m e)
      | inr e ↦ (_, rw e refl, loaded_rows s m)
    ]

    abbrev pub row_then : Option (NeighborAccum F) → Option (NeighborRow F) → Option (NeighborRow F)
    row_then none row = row
    row_then (some acc) row = if acc.dirty then some (merge_row fl acc row) else row

    abbrev pub clean : NeighborAccum F → NeighborAccum F
    clean acc = if acc.dirty then set_clean acc else acc

    pub record Flushed (s s' : State F) (m' : Map NeighborKey (NeighborRow F)) : Type 0 where
      pub is_map : IsMap key_discrete s'
      pub table_map : IsMap key_discrete m'
      pub entries :
          (k : NeighborKey)
          → lookup key_discrete k s'
            ≡ Option.map clean (Option.map (reloaded (row_of k)) (lookup key_discrete k s))
      pub rows :
          (k : NeighborKey)
          → lookup key_discrete k m'
            ≡ row_then (Option.map (reloaded (row_of k)) (lookup key_discrete k s)) (row_of k)

    same_row :
        (o : Option (NeighborAccum F)) (row : Option (NeighborRow F))
        → row_after key_discrete
            (neighbor_table {F = F})
            (λ (acc : NeighborAccum F). acc.dirty)
            set_clean
            (merge_row fl)
            o
            row
          ≡ row_then o row
    same_row none row = refl
    same_row (some acc) row = refl

    -- `Flush` succeeds and writes one table.
    pub flush-Flushed :
        (s : State F)
        → IsMap key_discrete s
        → (s' : State F) × (m' : Map NeighborKey (NeighborRow F)) × (flush fl s
              (record { db = d; faults = [] })
            ≡ (ok tt, s', record { db = record d { rollup_neighbor_1m = m' }; faults = [] }))
          × Flushed s s' m'
    unfolding flush write_rows
    flush-Flushed s m =
        let (s₁, ran, r) = rehydrate s m in
        let e =
          write_dirty_lem key_discrete (neighbor_table {F = F})
            (λ (acc : NeighborAccum F). acc.dirty) set_clean (merge_row fl) s₁ d in
        (
          _,
          _,
          rw (ran, e) refl,
          record {
            is_map = map_values-IsMap key_discrete _ s₁ r.is_map;
            table_map =
                written-IsMap key_discrete (neighbor_table {F = F})
                  (λ (acc : NeighborAccum F). acc.dirty) set_clean (merge_row fl) s₁
                  d.rollup_neighbor_1m u;
            entries = λ k. lookup-map_values key_discrete _ k s₁ ∙ ap (Option.map _) (r.entries k);
            rows = λ k.
                lookup-written key_discrete (neighbor_table {F = F})
                  (λ (acc : NeighborAccum F). acc.dirty) set_clean (merge_row fl) s₁
                  d.rollup_neighbor_1m k r.is_map
                ∙ same_row (lookup key_discrete k s₁) (row_of k)
                ∙ ap (λ o. row_then o (row_of k)) (r.entries k);
          },
        )
