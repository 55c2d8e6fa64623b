-- ===== src/Stages/Unique/Batch.antt =====
-- One hash through `Flush`: from what the memory knows in the batch to what holds after it.
use mathlib.Core.List.{append-nil}
use mathlib.Core.Option
use mesh_bug.Prelude.{
  ℕ, ◌≡◌, refl, sym, ap, ◌∙◌, Bool, true, false, Option, none, some, List, [], ◌++◌, Bytes, length,
  if◌then◌else◌, bytes_discrete, inl, inr, Bool-cases, subst,
}
use mesh_bug.Prelude.Sets.{distinct, length-distinct}
use mesh_bug.Store.{PacketRow, UniqueRow}
use mesh_bug.Stages.Unique.{UniqueState, merge_row, set_clean}
use mesh_bug.Stages.Unique.Flush.{row_then, clean}
use mesh_bug.Stages.Unique.Facts.{
  summary, observers_of, summary_silent, observers_of-append, facts-merge_row_twice,
}
use mesh_bug.Stages.Unique.Memory.{RowOk, At}
use mesh_bug.Stages.Unique.Rehydrate.{reloaded, Ready, reloaded-Ready, reloaded-dirty}

count_of : Option UniqueRow → ℕ
count_of none = 0
count_of (some r) = r.observer_count

merge_row-count :
    (st : UniqueState) (row : Option UniqueRow)
    → (merge_row st row).observer_count ≡ length st.observers
unfolding merge_row
merge_row-count st none = refl
merge_row-count st (some r) = refl

module _ {F : Type 0} where
  -- Between batches an entry is loaded and agrees with the row and the observations.
  abbrev pub Settled : Bytes → Option UniqueState → Option UniqueRow → List (PacketRow F) → Type 0
  Settled h none row all = Unit
  Settled h (some st) row all = Ready h st row all

  pub Settled-At :
      (h : Bytes) (o : Option UniqueState) (row : Option UniqueRow) (all : List (PacketRow F))
      → Settled h o row all
      → At h o row all []
  unfolding observers_of
  Settled-At h none row all s = refl
  Settled-At h (some st) row all s = record {
    facts = s.facts ∙ ap (summary h) (sym (append-nil all));
    set = s.set;
    members = λ o. rw (s.loaded, append-nil) (s.members o);
    clean_loaded = λ _. s.loaded;
    clean_silent = λ _. refl;
  }

  silent :
      (h : Bytes) (row : Option UniqueRow) (old new : List (PacketRow F))
      → RowOk h row old
      → observers_of h new ≡ []
      → RowOk h row (old ++ new)
  silent h row old new ok e = record {
    facts = ok.facts ∙ sym (summary_silent h old new e);
    count = λ r q.
        ok.count r q
        ∙ ap (distinct bytes_discrete) (rw (observers_of-append h old new, e, append-nil));
  }

  written_row :
      (h : Bytes) (st : UniqueState) (row : Option UniqueRow) (all : List (PacketRow F))
      → Ready h st row all
      → RowOk h (some (merge_row st row)) all
  unfolding count_of
  written_row h st row all a = record {
    facts = a.facts;
    count = λ r q.
        ap count_of (sym q)
        ∙ merge_row-count st row
        ∙ length-distinct bytes_discrete st.observers (observers_of h all) a.set a.members;
  }

  written_entry :
      (h : Bytes) (st : UniqueState) (row : Option UniqueRow) (all : List (PacketRow F))
      → Ready h st row all
      → Ready h (set_clean st) (some (merge_row st row)) all
  unfolding set_clean merge_row
  written_entry h st row all a = record {
    facts = ap some (facts-merge_row_twice st row) ∙ a.facts;
    set = a.set;
    members = a.members;
    loaded = a.loaded;
  }

  pub record Next (h : Bytes) (o : Option UniqueState) (row : Option UniqueRow)
      (old new : List (PacketRow F)) : Type 0 where
    pub row_ok : RowOk h (row_then (Option.map (reloaded h row old) o) row) (old ++ new)
    pub settled :
        Settled h
          (Option.map clean (Option.map (reloaded h row old) o))
          (row_then (Option.map (reloaded h row old) o) row)
          (old ++ new)

  pub At-Next :
      (h : Bytes) (o : Option UniqueState) (row : Option UniqueRow) (old new : List (PacketRow F))
      → RowOk h row old
      → At h o row old new
      → Next h o row old new
  At-Next h none row old new ok a = record { row_ok = silent h row old new ok a; settled = tt }
  At-Next h (some st) row old new ok a =
      let st' = reloaded h row old st in
      let r = reloaded-Ready h st row old new ok a in
      let both : RowOk h (row_then (some st') row) (old ++ new)
          × Ready h (clean st') (row_then (some st') row) (old ++ new) =
        elim (Bool-cases st'.dirty) [
          | inl d ↦
              (decided st' true d (written_row h st' row (old ++ new) r)
                (written_entry h st' row (old ++ new) r))
          | inr d ↦
              (decided st' false d
                (silent h row old new ok (a.clean_silent (sym (reloaded-dirty h st row old) ∙ d)))
                r)
        ] in
      record { row_ok = both.0; settled = both.1 }
    where
      decided :
          (st' : UniqueState) (b : Bool)
          → st'.dirty ≡ b
          → RowOk h (if b then some (merge_row st' row) else row) (old ++ new)
          → Ready h
              (if b then set_clean st' else st')
              (if b then some (merge_row st' row) else row)
              (old ++ new)
          → RowOk h (row_then (some st') row) (old ++ new)
            × Ready h (clean st') (row_then (some st') row) (old ++ new)
      decided st' b d ok' r' = (
        subst (λ b. RowOk h (if b then some (merge_row st' row) else row) (old ++ new)) (sym d) ok',
        subst
            (λ b.
              Ready h (if b then set_clean st' else st')
                (if b then some (merge_row st' row) else row) (old ++ new))
            (sym d) r',
      )
