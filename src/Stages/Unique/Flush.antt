-- ===== src/Stages/Unique/Flush.antt =====
-- `Flush` of the stage when the server refuses nothing: what becomes of each hash's entry and row.
use mathlib.Core.List.{lookup}
use mathlib.Core.Option
use mesh_bug.Prelude.{
  ◌≡◌, refl, sym, ap, ◌∙◌, false, Option, none, some, List, [], ◌∷◌, Bytes, is_nil, if◌then◌else◌,
  bytes_discrete, ◌⊎◌, inl, inr, Option-cases, foldl,
}
use mesh_bug.Prelude.Maps.{Map, IsMap, put-IsMap, map_values, map_values-IsMap, lookup-map_values}
use mesh_bug.Prelude.Sets.{contains}
use mesh_bug.Store.{Db, UniqueRow, ok}
use mesh_bug.Stages.Loop.{write_dirty_lem, lookup-written, row_after}
use mesh_bug.Stages.Unique.{
  State, UniqueState, HistoryRow, merge_row, pending, join, absorb, load_row, mark_loaded,
  set_clean, rehydrate_unloaded, write_rows, flush, unique_table,
}
use mesh_bug.Stages.Observations.Flush.{packets}
use mesh_bug.Stages.Unique.Absorb.{is_pending, contains-pending, absorb_all, load-join}
use mesh_bug.Stages.Unique.Rehydrate.{reloaded, reloaded-idle}

nil-cases {ℓ} : {A : Type ℓ} (xs : List A) → (xs ≡ []) ⊎ (is_nil xs ≡ false)
nil-cases [] = inl refl
nil-cases (x ∷ xs) = inr refl

load_row-IsMap :
    (s : State) (r : HistoryRow) → IsMap bytes_discrete s → IsMap bytes_discrete (load_row s r)
unfolding load_row
load_row-IsMap s r m = elim (Option-cases (lookup bytes_discrete r.hash s)) [
  | inl e ↦ rw (e, load_row) m
  | inr (st, e) ↦ rw (e, load_row) (put-IsMap bytes_discrete r.hash (absorb r st) s m)
]

load_rows-IsMap :
    (rows : List HistoryRow) (s : State)
    → IsMap bytes_discrete s
    → IsMap bytes_discrete (foldl load_row s rows)
load_rows-IsMap [] s m = m
load_rows-IsMap (r ∷ rows) s m = load_rows-IsMap rows (load_row s r) (load_row-IsMap s r m)

-- The row and the entry of one hash after the loop of `Flush`.
abbrev pub row_then : Option UniqueState → Option UniqueRow → Option UniqueRow
row_then none row = row
row_then (some st) row = if st.dirty then some (merge_row st row) else row

abbrev pub clean : UniqueState → UniqueState
clean st = if st.dirty then set_clean st else st

module _ {F : Type 0} (d : Db F) where
  row_after-row_then :
      (o : Option UniqueState) (row : Option UniqueRow)
      → row_after bytes_discrete
          (unique_table {F = F})
          (λ (st : UniqueState). st.dirty)
          set_clean
          merge_row
          o
          row
        ≡ row_then o row
  row_after-row_then none row = refl
  row_after-row_then (some st) row = refl

  abbrev pub row_of : Bytes → Option UniqueRow
  row_of h = lookup bytes_discrete h d.packets_unique

  record Rehydrated (s s' : State) : Type 0 where
    is_map : IsMap bytes_discrete s'
    entries :
        (h : Bytes)
        → lookup bytes_discrete h s'
          ≡ Option.map (reloaded h (row_of h) (packets d)) (lookup bytes_discrete h s)

  loaded_rows :
      (s : State)
      → IsMap bytes_discrete s
      → Rehydrated s
          (map_values mark_loaded (foldl load_row s (join (pending s) d d.packet_observations)))
  unfolding reloaded
  loaded_rows s m = record {
    is_map =
        map_values-IsMap bytes_discrete mark_loaded _
          (load_rows-IsMap (join (pending s) d d.packet_observations) s m);
    entries = λ h.
        lookup-map_values bytes_discrete mark_loaded h _
        ∙ ap (Option.map mark_loaded) (load-join h (pending s) d s d.packet_observations)
        ∙ Option.map-map _ _ (lookup bytes_discrete h s)
        ∙ same h (lookup bytes_discrete h s) (contains-pending h s m);
  }
    where
      same :
          (h : Bytes) (o : Option UniqueState)
          → contains bytes_discrete h (pending s) ≡ is_pending o
          → Option.map
              (λ st.
                mark_loaded
                  (absorb_all (contains bytes_discrete h (pending s)) (row_of h) h (packets d) st))
              o
            ≡ Option.map
                (λ st. mark_loaded (absorb_all (is_pending (some st)) (row_of h) h (packets d) st))
                o
      same h none e = refl
      same h (some st) e = rw e

  idle : (s : State) → IsMap bytes_discrete s → pending s ≡ [] → Rehydrated s s
  unfolding contains
  idle s m e = record {
    is_map = m;
    entries = λ h. same h (lookup bytes_discrete h s) (rw e at (contains-pending h s m));
  }
    where
      same :
          (h : Bytes) (o : Option UniqueState)
          → contains bytes_discrete h [] ≡ is_pending o
          → o ≡ Option.map (reloaded h (row_of h) (packets d)) o
      same h none p = refl
      same h (some st) p = ap some (sym (reloaded-idle h (row_of h) (packets d) st (sym p)))

  rehydrate :
      (s : State)
      → IsMap bytes_discrete s
      → (s' : State) × (rehydrate_unloaded s (record { db = d; faults = [] })
          ≡ (ok tt, s', record { db = d; faults = [] }))
        × Rehydrated s s'
  unfolding rehydrate_unloaded
  rehydrate s m = elim (nil-cases (pending s)) [
    | inl e ↦ (s, rw e, idle s m e)
    | inr e ↦ (_, rw e, loaded_rows s m)
  ]

  -- The memory and the table after `Flush`.
  pub record Flushed (s s' : State) (m' : Map Bytes UniqueRow) : Type 0 where
    pub is_map : IsMap bytes_discrete s'
    pub entries :
        (h : Bytes)
        → lookup bytes_discrete h s'
          ≡ Option.map clean
              (Option.map (reloaded h (row_of h) (packets d)) (lookup bytes_discrete h s))
    pub rows :
        (h : Bytes)
        → lookup bytes_discrete h m'
          ≡ row_then
              (Option.map (reloaded h (row_of h) (packets d)) (lookup bytes_discrete h s))
              (row_of h)

  -- `Flush` succeeds and writes one table.
  pub flush-Flushed :
      (s : State)
      → IsMap bytes_discrete s
      → (s' : State) × (m' : Map Bytes UniqueRow) × (flush s (record { db = d; faults = [] })
          ≡ (ok tt, s', record { db = record d { packets_unique = m' }; faults = [] }))
        × Flushed s s' m'
  unfolding flush write_rows
  flush-Flushed s m =
      let (s₁, ran, r) = rehydrate s m in
      let e =
        write_dirty_lem bytes_discrete (unique_table {F = F}) (λ (st : UniqueState). st.dirty)
          set_clean merge_row s₁ d in
      (
        _,
        _,
        rw (ran, e),
        record {
          is_map = map_values-IsMap bytes_discrete _ s₁ r.is_map;
          entries = λ h. lookup-map_values bytes_discrete _ h s₁ ∙ ap (Option.map _) (r.entries h);
          rows = λ h.
              lookup-written bytes_discrete (unique_table {F = F}) (λ (st : UniqueState). st.dirty)
                set_clean merge_row s₁ d.packets_unique h r.is_map
              ∙ ap
                  (λ o.
                    row_after bytes_discrete (unique_table {F = F}) (λ (st : UniqueState). st.dirty)
                      set_clean merge_row o (row_of h))
                  (r.entries h)
              ∙ row_after-row_then
                  (Option.map (reloaded h (row_of h) (packets d)) (lookup bytes_discrete h s))
                  (row_of h);
        },
      )
