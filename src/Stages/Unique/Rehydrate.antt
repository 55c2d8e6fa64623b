-- ===== src/Stages/Unique/Rehydrate.antt =====
-- What `rehydrateUnloaded` does to the entry of one hash.
use mesh_bug.Prelude.{
  ◌≡◌, refl, sym, ap, ◌∙◌, Bool, true, false, ◌||◌, Option, none, some, List, ◌++◌, Bytes,
  bytes_discrete, arith, inl, inr, Bool-cases,
}
use mesh_bug.Prelude.Sets.{contains, IsSetList, contains-append}
use mesh_bug.Store.{PacketRow, UniqueRow}
use mesh_bug.Stages.Unique.{UniqueState, merge_row, mark_loaded}
use mesh_bug.Stages.Unique.Facts.{
  facts_of, summary, observers_of, observers_of-append, observers_of-none,
}
use mesh_bug.Stages.Unique.Memory.{RowOk, Held, to_know}
use mesh_bug.Stages.Unique.Absorb.{
  is_pending, absorb_all, absorb_all-none, absorb_all-unasked, Absorbed, absorb_all-Absorbed,
}

module _ {F : Type 0} where
  -- The entry after `rehydrateUnloaded`.
  unfoldable pub reloaded :
      Bytes → Option UniqueRow → List (PacketRow F) → UniqueState → UniqueState
  reloaded h row old st = mark_loaded (absorb_all (is_pending (some st)) row h old st)

  -- Loaded, an entry knows every observation, and written it gives the row that they call for.
  pub record Ready (h : Bytes) (st : UniqueState) (row : Option UniqueRow)
      (all : List (PacketRow F)) : Type 0 where
    pub facts : some (facts_of (merge_row st row)) ≡ summary h all
    pub set : IsSetList bytes_discrete st.observers
    pub members :
        (o : Bytes)
        → contains bytes_discrete o st.observers ≡ contains bytes_discrete o (observers_of h all)
    pub loaded : st.loaded ≡ true

  ready :
      (h : Bytes) (st : UniqueState) (row : Option UniqueRow) (old new : List (PacketRow F))
      → st.loaded ≡ true
      → Held h st row old new
      → Ready h st row (old ++ new)
  ready h st row old new l a = record {
    facts = a.facts;
    set = a.set;
    members = λ o. a.members o ∙ ap (λ b. contains bytes_discrete o (to_know h b old new)) l;
    loaded = l;
  }

  reloaded-loaded :
      (h : Bytes) (row : Option UniqueRow) (old : List (PacketRow F)) (st : UniqueState)
      → st.loaded ≡ true
      → reloaded h row old st ≡ st
  unfolding reloaded mark_loaded
  reloaded-loaded h row old st l = ground (arith, absorb_all-unasked row h old st)

  reloaded-none :
      (h : Bytes) (old new : List (PacketRow F)) (st : UniqueState)
      → st.loaded ≡ false
      → RowOk h none old
      → Held h st none old new
      → Ready h (record st { loaded = true }) none (old ++ new)
  unfolding merge_row
  reloaded-none h old new st l ok a = record {
    facts = a.facts;
    set = a.set;
    members = λ o.
        a.members o
        ∙ ap (λ b. contains bytes_discrete o (to_know h b old new)) l
        ∙ rw (observers_of-append h old new, observers_of-none h old (sym ok.facts));
    loaded = refl;
  }

  reloaded-some :
      (h : Bytes) (r : UniqueRow) (old new : List (PacketRow F)) (st st' : UniqueState)
      → st.loaded ≡ false
      → Absorbed h r old st st'
      → Held h st (some r) old new
      → Ready h (record st' { loaded = true }) (some r) (old ++ new)
  unfolding merge_row
  reloaded-some h r old new st st' l b a = record {
    facts = ap some b.facts ∙ a.facts;
    set = b.set a.set;
    members = λ o.
        b.members o
        ∙ ap (λ c. contains bytes_discrete o (observers_of h old) || c)
            (a.members o ∙ ap (λ c. contains bytes_discrete o (to_know h c old new)) l)
        ∙ rw (observers_of-append h old new, contains-append);
    loaded = refl;
  }

  absorb_all-dirty :
      (asked : Bool) (row : Option UniqueRow) (h : Bytes) (old : List (PacketRow F))
      (st : UniqueState)
      → (absorb_all asked row h old st).dirty ≡ st.dirty
  absorb_all-dirty false row h old st = ap (λ t. t.dirty) (absorb_all-unasked row h old st)
  absorb_all-dirty true none h old st = ap (λ t. t.dirty) (absorb_all-none true h old st)
  absorb_all-dirty true (some r) h old st = (absorb_all-Absorbed h r old st).dirty

  absorb_all-loaded :
      (asked : Bool) (row : Option UniqueRow) (h : Bytes) (old : List (PacketRow F))
      (st : UniqueState)
      → (absorb_all asked row h old st).loaded ≡ st.loaded
  absorb_all-loaded false row h old st = ap (λ t. t.loaded) (absorb_all-unasked row h old st)
  absorb_all-loaded true none h old st = ap (λ t. t.loaded) (absorb_all-none true h old st)
  absorb_all-loaded true (some r) h old st = (absorb_all-Absorbed h r old st).loaded

  reloaded-pending :
      (h : Bytes) (row : Option UniqueRow) (old : List (PacketRow F)) (st : UniqueState)
      → st.loaded ≡ false
      → st.dirty ≡ true
      → reloaded h row old st ≡ record (absorb_all true row h old st) { loaded = true }
  unfolding reloaded mark_loaded
  reloaded-pending h row old st l d =
      ground (arith, absorb_all-loaded true row h old st, absorb_all-dirty true row h old st)

  pending-Ready :
      (h : Bytes) (st : UniqueState) (row : Option UniqueRow) (old new : List (PacketRow F))
      → st.loaded ≡ false
      → st.dirty ≡ true
      → RowOk h row old
      → Held h st row old new
      → Ready h (reloaded h row old st) row (old ++ new)
  pending-Ready h st none old new l d ok a =
      rw (reloaded-pending h none old st l d)
        (rw (absorb_all-none true h old st) (reloaded-none h old new st l ok a))
  pending-Ready h st (some r) old new l d ok a = rw (reloaded-pending h (some r) old st l d) (
      reloaded-some h r old new st (absorb_all true (some r) h old st) l
        (absorb_all-Absorbed h r old st) a)

  -- After `rehydrateUnloaded` every entry is ready to be written.
  pub reloaded-Ready :
      (h : Bytes) (st : UniqueState) (row : Option UniqueRow) (old new : List (PacketRow F))
      → RowOk h row old
      → Held h st row old new
      → Ready h (reloaded h row old st) row (old ++ new)
  reloaded-Ready h st row old new ok a = elim (Bool-cases st.loaded) [
    | inl l ↦ rw (reloaded-loaded h row old st l) (ready h st row old new l a)
    | inr l ↦ elim (Bool-cases st.dirty) [
      | inl d ↦ pending-Ready h st row old new l d ok a
      | inr d ↦ absurd (ground (arith, a.clean_loaded d, l))
    ]
  ]

  pub reloaded-dirty :
      (h : Bytes) (st : UniqueState) (row : Option UniqueRow) (old : List (PacketRow F))
      → (reloaded h row old st).dirty ≡ st.dirty
  unfolding reloaded mark_loaded
  reloaded-dirty h st row old = ground (arith, absorb_all-dirty (is_pending (some st)) row h old st)

  -- An entry that is not asked for stays as it is.
  pub reloaded-idle :
      (h : Bytes) (row : Option UniqueRow) (old : List (PacketRow F)) (st : UniqueState)
      → is_pending (some st) ≡ false
      → reloaded h row old st ≡ st
  unfolding reloaded mark_loaded
  reloaded-idle h row old st p = ground (arith, absorb_all-unasked row h old st)
