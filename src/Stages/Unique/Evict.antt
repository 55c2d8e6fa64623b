-- ===== src/Stages/Unique/Evict.antt =====
-- `Evict` of the stage: what it drops holds nothing that is not in the tables.
use mathlib.Core.List.{lookup}
use mathlib.Core.Option
use mesh_bug.Prelude.{
  ◌≡◌, sym, ap, ◌∙◌, subst, Bool, true, false, Option, none, some, List, Bytes, if◌then◌else◌,
  bytes_discrete, Bool-cases, inl, inr,
}
use mesh_bug.Prelude.Maps.{
  IsMap, map_values-IsMap, lookup-map_values, delete_where-IsMap, lookup-delete_where, kept,
}
use mesh_bug.Store.{PacketRow, UniqueRow}
use mesh_bug.Event.{Time}
use mesh_bug.Stages.Unique.{State, UniqueState, evict, evictable, set_clean, merge_row}
use mesh_bug.Stages.Unique.Rehydrate.{Ready}
use mesh_bug.Stages.Unique.Batch.{Settled}

pub evict-IsMap :
    (hwm : Time) (s : State) → IsMap bytes_discrete s → IsMap bytes_discrete (evict hwm s)
unfolding evict
evict-IsMap hwm s m =
    map_values-IsMap bytes_discrete set_clean _ (delete_where-IsMap bytes_discrete _ s m)

abbrev pub evicted : Time → Bytes → Option UniqueState → Option UniqueState
evicted hwm h o = Option.map set_clean (kept bytes_discrete (λ _ st. evictable hwm st) h o)

pub lookup-evict :
    (hwm : Time) (h : Bytes) (s : State)
    → IsMap bytes_discrete s
    → lookup bytes_discrete h (evict hwm s) ≡ evicted hwm h (lookup bytes_discrete h s)
unfolding evict
lookup-evict hwm h s m =
    lookup-map_values bytes_discrete set_clean h _
    ∙ ap (Option.map set_clean) (lookup-delete_where bytes_discrete _ h s m)

module _ {F : Type 0} where
  cleaned-Ready :
      (h : Bytes) (st : UniqueState) (row : Option UniqueRow) (all : List (PacketRow F))
      → Ready h st row all
      → Ready h (set_clean st) row all
  unfolding set_clean merge_row
  cleaned-Ready h st none all r = record {
    facts = r.facts;
    set = r.set;
    members = r.members;
    loaded = r.loaded;
  }
  cleaned-Ready h st (some _) all r = record {
    facts = r.facts;
    set = r.set;
    members = r.members;
    loaded = r.loaded;
  }

  -- What agrees with the tables still does, or is gone.
  pub evicted-Settled :
      (hwm : Time) (h : Bytes) (o : Option UniqueState) (row : Option UniqueRow)
      (all : List (PacketRow F))
      → Settled h o row all
      → Settled h (evicted hwm h o) row all
  evicted-Settled hwm h none row all s = tt
  evicted-Settled hwm h (some st) row all s = elim (Bool-cases (evictable hwm st)) [
    | inl e ↦ gone true e
    | inr e ↦ gone false e
  ]
    where
      gone : (b : Bool) → evictable hwm st ≡ b → Settled h (evicted hwm h (some st)) row all
      gone true e =
          subst (λ b. Settled h (Option.map set_clean (if b then none else some st)) row all)
            (sym e) tt
      gone false e =
          subst (λ b. Settled h (Option.map set_clean (if b then none else some st)) row all)
            (sym e) (cleaned-Ready h st row all s)
