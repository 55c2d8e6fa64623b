-- ===== src/Stages/Unique/Memory.antt =====
-- What the memory of the stage knows of each hash while a batch is applied: written now, its entry
-- would give the row that the observations so far call for.
use mathlib.Core.List.{lookup, append_assoc, append-nil}
use mathlib.Core.Option
use mesh_bug.Prelude.{
  ◌≡◌, refl, sym, ap, ◌∙◌, ◌≢◌, Bool, true, false, Option, none, some, List, [], ◌∷◌, ◌++◌, Bytes,
  slice_bytes, if◌then◌else◌, is_nil, if_pos, if_neg, ◌⊎◌, Slice, bytes_discrete, arith, inl, inr,
  Bool-cases,
}
use mesh_bug.Prelude.Maps.{IsMap, lookup-put, put-IsMap}
use mesh_bug.Prelude.Sets.{
  contains, IsSetList, add, add-IsSetList, contains-add, contains-append, distinct,
}
use mesh_bug.Event.{Event, PacketPayload}
use mesh_bug.Store.{PacketRow, UniqueRow}
use mesh_bug.Stages.Observations.{packet_row}
use mesh_bug.Stages.Unique.{State, UniqueState, fresh, observe, apply_packet, merge_row}
use mesh_bug.Stages.Unique.Facts.{
  facts_of, has_hash, has_slice, summary, observers_of, note, summary-snoc, observers_of-append,
  facts-observe, facts-observe-fresh, summary_silent,
}

key_cases :
    (h : Bytes)
    → h ≢ []
    → (b : Slice)
    → ((slice_bytes b ≡ h) × (is_nil (slice_bytes b) ≡ false) × (has_slice h b ≡ true))
      ⊎ ((has_slice h b ≡ false) × ((is_nil (slice_bytes b) ≡ true) ⊎ (slice_bytes b ≢ h)))
key_cases h ne none = inr (refl, inl refl)
key_cases h ne (some []) = elim (bytes_discrete [] h) [
  | yes q ↦ absurd (ne (sym q))
  | no q ↦ inr (rw (if_neg _ q), inl refl)
]
key_cases h ne (some (x ∷ xs)) = elim (bytes_discrete (x ∷ xs) h) [
  | yes q ↦ inl (q, refl, rw (if_pos _ q))
  | no q ↦ inr (rw (if_neg _ q), inr q)
]

module _ {F : Type 0} where
  -- The stored row of a hash agrees with the stored observations.
  pub record RowOk (h : Bytes) (row : Option UniqueRow) (old : List (PacketRow F)) : Type 0 where
    pub facts : Option.map facts_of row ≡ summary h old
    pub count :
        (r : UniqueRow)
        → row ≡ some r
        → r.observer_count ≡ distinct bytes_discrete (observers_of h old)

  -- The observers that an entry must know: all, once it was loaded, or those of the batch.
  abbrev pub to_know : Bytes → Bool → List (PacketRow F) → List (PacketRow F) → List Bytes
  to_know h true old new = observers_of h (old ++ new)
  to_know h false old new = observers_of h new

  pub record Held (h : Bytes) (st : UniqueState) (row : Option UniqueRow)
      (old new : List (PacketRow F)) : Type 0 where
    pub facts : some (facts_of (merge_row st row)) ≡ summary h (old ++ new)
    pub set : IsSetList bytes_discrete st.observers
    pub members :
        (o : Bytes)
        → contains bytes_discrete o st.observers
          ≡ contains bytes_discrete o (to_know h st.loaded old new)
    pub clean_loaded : st.dirty ≡ false → st.loaded ≡ true
    pub clean_silent : st.dirty ≡ false → observers_of h new ≡ []

  abbrev pub At :
      Bytes
      → Option UniqueState
      → Option UniqueRow
      → List (PacketRow F)
      → List (PacketRow F)
      → Type 0
  At h none row old new = observers_of h new ≡ []
  At h (some st) row old new = Held h st row old new

  abbrev seen : Bytes → PacketRow F → List Bytes
  seen h po = if has_hash h po then po.observer_id ∷ [] else []

  observers_of-snoc :
      (h : Bytes) (xs : List (PacketRow F)) (po : PacketRow F)
      → observers_of h (xs ++ po ∷ []) ≡ observers_of h xs ++ seen h po
  unfolding observers_of
  observers_of-snoc h xs po = ground (arith, observers_of-append h xs (po ∷ []))

  to_know-snoc :
      (h : Bytes) (l : Bool) (old new : List (PacketRow F)) (po : PacketRow F)
      → to_know h l old (new ++ po ∷ []) ≡ to_know h l old new ++ seen h po
  to_know-snoc h true old new po =
      ap (observers_of h) (sym (append_assoc old new (po ∷ [])))
      ∙ observers_of-snoc h (old ++ new) po
  to_know-snoc h false old new po = observers_of-snoc h new po

  summary-snoc_batch :
      (h : Bytes) (old new : List (PacketRow F)) (po : PacketRow F)
      → summary h (old ++ (new ++ po ∷ [])) ≡ (
          if has_hash h po then some (note po (summary h (old ++ new))) else summary h (old ++ new))
  summary-snoc_batch h old new po =
      ap (summary h) (sym (append_assoc old new (po ∷ []))) ∙ summary-snoc h (old ++ new) po

  -- An observation of another hash changes nothing that is said of `h`.
  pub At-other :
      (h : Bytes) (st : Option UniqueState) (row : Option UniqueRow) (old new : List (PacketRow F))
      (po : PacketRow F)
      → has_hash h po ≡ false
      → At h st row old new
      → At h st row old (new ++ po ∷ [])
  At-other h none row old new po e a = rw (observers_of-snoc h new po, e, append-nil) a
  At-other h (some st) row old new po e a = record {
    facts = ground (arith, a.facts, summary-snoc_batch h old new po);
    set = a.set;
    members = λ o. rw (to_know-snoc h st.loaded old new po, e, append-nil) (a.members o);
    clean_loaded = a.clean_loaded;
    clean_silent = λ c. rw (observers_of-snoc h new po, e, append-nil) (a.clean_silent c);
  }

  module _ (h : Bytes) (row : Option UniqueRow) (old new : List (PacketRow F)) (e : Event F)
      (p : PacketPayload F) (k : has_hash h (packet_row e p) ≡ true) where
    observer_added :
        (o : Bytes) (l : Bool) (obs : List Bytes)
        → contains bytes_discrete o obs ≡ contains bytes_discrete o (to_know h l old new)
        → contains bytes_discrete o (add bytes_discrete e.observer_id obs)
          ≡ contains bytes_discrete o (to_know h l old (new ++ packet_row e p ∷ []))
    unfolding contains packet_row
    observer_added o l obs m =
        rw (to_know-snoc h l old new (packet_row e p), k)
          (ground (
            arith,
            m,
            contains-add bytes_discrete o e.observer_id obs,
            contains-append bytes_discrete o (to_know h l old new) (e.observer_id ∷ []),
          ))

    observed :
        (st : UniqueState)
        → Held h st row old new
        → Held h (observe e p st) row old (new ++ packet_row e p ∷ [])
    unfolding observe
    observed st a = record {
      facts =
          rw (summary-snoc_batch h old new (packet_row e p), k)
            (ap some (facts-observe e p st row) ∙ ap (λ f. some (note (packet_row e p) f)) a.facts);
      set = add-IsSetList bytes_discrete e.observer_id st.observers a.set;
      members = λ o. observer_added o st.loaded st.observers (a.members o);
      clean_loaded = λ c. cc;
      clean_silent = λ c. cc;
    }

    observed_fresh :
        RowOk h row old
        → observers_of h new ≡ []
        → Held h (observe e p (fresh e)) row old (new ++ packet_row e p ∷ [])
    unfolding observe fresh contains
    observed_fresh ok a = record {
      facts =
          rw (summary-snoc_batch h old new (packet_row e p), k)
            (ap some (facts-observe-fresh e p row)
              ∙ ap (λ f. some (note (packet_row e p) f))
                  (ok.facts ∙ sym (summary_silent h old new a)));
      set = add-IsSetList bytes_discrete e.observer_id [] tt;
      members = λ o. observer_added o false [] (ground (arith, a));
      clean_loaded = λ c. cc;
      clean_silent = λ c. cc;
    }

  abbrev key_of : PacketPayload F → Bytes
  key_of p = slice_bytes p.packet_hash

  module _ (h : Bytes) (e : Event F) (p : PacketPayload F) (s : State) where
    lookup-apply_packet_same :
        key_of p ≡ h
        → is_nil (key_of p) ≡ false
        → lookup bytes_discrete h (apply_packet e p s)
          ≡ some (observe e p (Option.get_or (lookup bytes_discrete h s) (fresh e)))
    unfolding apply_packet
    lookup-apply_packet_same same full = rw full (
        lookup-put bytes_discrete (key_of p) h _ s
        ∙ if_pos (bytes_discrete (key_of p) h) same _ _
        ∙ ap (λ k. some (observe e p (Option.get_or (lookup bytes_discrete k s) (fresh e)))) same)

    lookup-apply_packet_other :
        (is_nil (key_of p) ≡ true) ⊎ (key_of p ≢ h)
        → lookup bytes_discrete h (apply_packet e p s) ≡ lookup bytes_discrete h s
    unfolding apply_packet
    lookup-apply_packet_other (inl empty) = rw empty
    lookup-apply_packet_other (inr ne) = elim (Bool-cases (is_nil (key_of p))) [
      | inl empty ↦ rw empty
      | inr full ↦
          rw full (
            lookup-put bytes_discrete (key_of p) h _ s
            ∙ if_neg (bytes_discrete (key_of p) h) ne _ _)
    ]

  -- Applying a packet keeps what is known of every hash.
  pub apply_packet-At :
      (h : Bytes)
      → h ≢ []
      → (s : State) (row : Option UniqueRow) (old new : List (PacketRow F)) (e : Event F)
        (p : PacketPayload F)
      → RowOk h row old
      → At h (lookup bytes_discrete h s) row old new
      → At h (lookup bytes_discrete h (apply_packet e p s)) row old (new ++ packet_row e p ∷ [])
  unfolding packet_row
  apply_packet-At h ne s row old new e p ok a = elim (key_cases h ne p.packet_hash) [
    | inl (same, full, has) ↦
        rw (lookup-apply_packet_same h e p s same full) (held (lookup bytes_discrete h s) has a)
    | inr (hasnt, other) ↦
        rw (lookup-apply_packet_other h e p s other)
          (At-other h (lookup bytes_discrete h s) row old new (packet_row e p) hasnt a)
  ]
    where
      held :
          (o : Option UniqueState)
          → has_slice h p.packet_hash ≡ true
          → At h o row old new
          → Held h (observe e p (Option.get_or o (fresh e))) row old (new ++ packet_row e p ∷ [])
      held none has b = observed_fresh h row old new e p has ok b
      held (some st) has b = observed h row old new e p has st b

  pub apply_packet-IsMap :
      (e : Event F) (p : PacketPayload F) (s : State)
      → IsMap bytes_discrete s
      → IsMap bytes_discrete (apply_packet e p s)
  unfolding apply_packet
  apply_packet-IsMap e p s m = ground (
    arith,
    put-IsMap bytes_discrete (key_of p)
        (observe e p (Option.get_or (lookup bytes_discrete (key_of p) s) (fresh e))) s m,
  )
