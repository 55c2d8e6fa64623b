-- ===== src/Stages/Observers/Batch.antt =====
-- A batch of status messages folded in memory and written at once, against one write for each.
use mathlib.Core.List.{lookup}
use mathlib.Core.Option
use mesh_bug.Prelude.{
  ℕ, ◌≡◌, refl, sym, ap, ◌∙◌, true, Option, none, some, List, [], ◌∷◌, Bytes, min, max, arith,
  if◌then◌else◌, ite, if_pos, if_neg, bytes_discrete,
}
use mesh_bug.Prelude.Maps.{IsMap, lookup-put, put-IsMap}
use mesh_bug.Event.{FloatOps, Event, Payload, StatusPayload, packet, status, before, after}
use mesh_bug.Store.{Db, ObserversRow, ok, coalesce, nullif_empty}
use mesh_bug.Stages.Loop.{write_dirty_lem, lookup-written, row_after}
use mesh_bug.Stages.Observers.{
  ObserverState, State, fresh, observe, apply_payload, apply, merge_row, flush, observers_table,
  override_text, override,
}

text_alone :
    (new old : Bytes)
    → some (override_text new old)
      ≡ coalesce (nullif_empty (some (override_text new []))) (some old)
text_alone [] old = refl
text_alone (x ∷ xs) old = refl

text_twice :
    (new old : Bytes) (r : Option Bytes)
    → coalesce (nullif_empty (some (override_text new old))) r
      ≡ coalesce (nullif_empty (some (override_text new []))) (coalesce (nullif_empty (some old)) r)
text_twice [] old r = refl
text_twice (x ∷ xs) old r = refl

name_alone : (new old : Bytes) → override_text new old ≡ override_text (override_text new []) old
name_alone [] old = refl
name_alone (x ∷ xs) old = refl

name_twice :
    (new old r : Bytes)
    → override_text (override_text new old) r
      ≡ override_text (override_text new []) (override_text old r)
name_twice [] old r = refl
name_twice (x ∷ xs) old r = refl

region_alone :
    (new old : Bytes)
    → some (override_text new old)
      ≡ coalesce (nullif_empty (some (override_text new new))) (some old)
region_alone [] old = refl
region_alone (x ∷ xs) old = refl

region_twice :
    (new old : Bytes) (r : Option Bytes)
    → coalesce (nullif_empty (some (override_text new old))) r
      ≡ coalesce
          (nullif_empty (some (override_text new new)))
          (coalesce (nullif_empty (some old)) r)
region_twice [] old r = refl
region_twice (x ∷ xs) old r = refl

value_alone :
    {A : Type 0} (new old : Option A) → override new old ≡ coalesce (override new none) old
value_alone none old = refl
value_alone (some a) old = refl

value_twice :
    {A : Type 0} (new old r : Option A)
    → coalesce (override new old) r ≡ coalesce (override new none) (coalesce old r)
value_twice none old r = refl
value_twice (some a) old r = refl

first_alone : (t a : ℕ) → (if before t a then t else a) ≡ min a (if before t t then t else t)
first_alone t a = ground arith

first_twice :
    (t a r : ℕ) → min r (if before t a then t else a) ≡ min (min r a) (if before t t then t else t)
first_twice t a r = ground arith

last_alone : (t a : ℕ) → (if after t a then t else a) ≡ max a (if after t t then t else t)
last_alone t a = ground arith

last_twice :
    (t a r : ℕ) → max r (if after t a then t else a) ≡ max (max r a) (if after t t then t else t)
last_twice t a r = ground arith

column_alone :
    {A : Type 0} (f : A → A) (new old : Option A)
    → Option.map f (override new old)
      ≡ coalesce (Option.map f (override new none)) (Option.map f old)
column_alone f none old = refl
column_alone f (some a) old = refl

column_twice :
    {A : Type 0} (f : A → A) (new old r : Option A)
    → coalesce (Option.map f (override new old)) r
      ≡ coalesce (Option.map f (override new none)) (coalesce (Option.map f old) r)
column_twice f none old r = refl
column_twice f (some a) old r = refl

module _ {F : Type 0} ⦃fl : FloatOps F⦄ where
  -- The row after one status message by itself.
  unfoldable pub row_observe : Event F → StatusPayload F → Option (ObserversRow F) → ObserversRow F
  row_observe e p row = merge_row (observe e p (fresh e)) row

  merge-observe :
      (e : Event F) (p : StatusPayload F) (st : ObserverState F) (row : Option (ObserversRow F))
      → merge_row (observe e p st) row ≡ row_observe e p (some (merge_row st row))
  unfolding row_observe merge_row observe fresh
  merge-observe e p st none = λ i. record {
    origin_name = name_alone p.origin st.origin_name i;
    region = region_alone e.region st.region i;
    model = text_alone p.model st.model i;
    firmware_version = text_alone p.firmware_version st.firmware_version i;
    client_version = text_alone p.client_version st.client_version i;
    source = text_alone p.source st.source i;
    radio_freq_khz = value_alone p.radio_freq_khz st.radio_freq_khz i;
    radio_bw_khz = column_alone fl.to_bandwidth p.radio_bw_khz st.radio_bw_khz i;
    radio_sf = value_alone p.radio_sf st.radio_sf i;
    radio_cr = value_alone p.radio_cr st.radio_cr i;
    first_seen = first_alone e.ts st.first_seen i;
    last_seen = last_alone e.ts st.last_seen i;
  }
  merge-observe e p st (some r) = λ i. record {
    origin_name = name_twice p.origin st.origin_name r.origin_name i;
    region = region_twice e.region st.region r.region i;
    model = text_twice p.model st.model r.model i;
    firmware_version = text_twice p.firmware_version st.firmware_version r.firmware_version i;
    client_version = text_twice p.client_version st.client_version r.client_version i;
    source = text_twice p.source st.source r.source i;
    radio_freq_khz = value_twice p.radio_freq_khz st.radio_freq_khz r.radio_freq_khz i;
    radio_bw_khz = column_twice fl.to_bandwidth p.radio_bw_khz st.radio_bw_khz r.radio_bw_khz i;
    radio_sf = value_twice p.radio_sf st.radio_sf r.radio_sf i;
    radio_cr = value_twice p.radio_cr st.radio_cr r.radio_cr i;
    first_seen = first_twice e.ts st.first_seen r.first_seen i;
    last_seen = last_twice e.ts st.last_seen r.last_seen i;
  }

  abbrev written_with : Option (ObserverState F) → Option (ObserversRow F) → Option (ObserversRow F)
  written_with none row = row
  written_with (some st) row = some (merge_row st row)

  -- One event written by itself, if it is a status message of the observer.
  unfoldable pub row_event :
      Bytes → Event F → Payload F → Option (ObserversRow F) → Option (ObserversRow F)
  row_event h e (packet _) row = row
  row_event h e (status p) row =
      ite (bytes_discrete e.observer_id h) (some (row_observe e p row)) row

  unfoldable pub one_by_one :
      Bytes → List (Event F) → Option (ObserversRow F) → Option (ObserversRow F)
  unfolding row_event
  one_by_one h [] row = row
  one_by_one h (e ∷ es) row = one_by_one h es (row_event h e e.payload row)

  -- `Apply` of each event of a batch in turn.
  unfoldable pub applied : List (Event F) → State F → State F
  applied [] s = s
  applied (e ∷ es) s = applied es (apply e s)

  observed_row :
      (e : Event F) (p : StatusPayload F) (o : Option (ObserverState F))
      (row : Option (ObserversRow F))
      → some (merge_row (observe e p (Option.get_or o (fresh e))) row)
        ≡ some (row_observe e p (written_with o row))
  unfolding row_observe
  observed_row e p none row = refl
  observed_row e p (some st) row = ap some (merge-observe e p st row)

  module _ (h : Bytes) where
    apply-row :
        (e : Event F) (p : Payload F) (s : State F) (row : Option (ObserversRow F))
        → written_with (lookup bytes_discrete h (apply_payload e p s)) row
          ≡ row_event h e p (written_with (lookup bytes_discrete h s) row)
    unfolding apply_payload row_event
    apply-row e (packet p) s row = refl
    apply-row e (status p) s row = elim (bytes_discrete e.observer_id h) [
      | yes q ↦
          ap (λ o. written_with o row)
            (lookup-put bytes_discrete e.observer_id h _ s
              ∙ if_pos (bytes_discrete e.observer_id h) q _ _
              ∙ ap (λ k. some (observe e p (Option.get_or (lookup bytes_discrete k s) (fresh e))))
                  q)
          ∙ observed_row e p (lookup bytes_discrete h s) row
          ∙ sym (if_pos (bytes_discrete e.observer_id h) q _ _)
      | no q ↦
          ap (λ o. written_with o row)
            (lookup-put bytes_discrete e.observer_id h _ s
              ∙ if_neg (bytes_discrete e.observer_id h) q _ _)
          ∙ sym (if_neg (bytes_discrete e.observer_id h) q _ _)
    ]

    apply-IsMap :
        (e : Event F) (p : Payload F) (s : State F)
        → IsMap bytes_discrete s
        → IsMap bytes_discrete (apply_payload e p s)
    unfolding apply_payload
    apply-IsMap e (packet p) s m = m
    apply-IsMap e (status p) s m = put-IsMap bytes_discrete e.observer_id _ s m

    applied-row :
        (es : List (Event F)) (s : State F) (row : Option (ObserversRow F))
        → IsMap bytes_discrete s
        → (written_with (lookup bytes_discrete h (applied es s)) row
            ≡ one_by_one h es (written_with (lookup bytes_discrete h s) row))
          × IsMap bytes_discrete (applied es s)
    unfolding applied one_by_one apply
    applied-row [] s row m = (refl, m)
    applied-row (e ∷ es) s row m =
        let (rest, m') =
          applied-row es (apply_payload e e.payload s) row (apply-IsMap e e.payload s m) in
        (rest ∙ ap (one_by_one h es) (apply-row e e.payload s row), m')

    same_row :
        (o : Option (ObserverState F)) (row : Option (ObserversRow F))
        → row_after bytes_discrete
            (observers_table {F = F})
            (λ (st : ObserverState F). true)
            (λ st. st)
            merge_row
            o
            row
          ≡ written_with o row
    same_row none row = refl
    same_row (some st) row = refl

    -- When the server refuses nothing, a batch of status messages folded in memory and written at
    -- once leaves the row of each observer as if each message had been written by itself, in order.
    pub flush-one_by_one_status :
        (es : List (Event F)) (d : Db F)
        → let (r, s, t) = flush (applied es []) (record { db = d; faults = [] }) in
          (r ≡ ok tt)
          × (lookup bytes_discrete h t.db.observers
              ≡ one_by_one h es (lookup bytes_discrete h d.observers))
    unfolding flush lookup
    flush-one_by_one_status es d =
        let s = applied es [] in
        let row = lookup bytes_discrete h d.observers in
        let (rows, m) = applied-row es [] row tt in
        let e =
          write_dirty_lem bytes_discrete (observers_table {F = F}) (λ (st : ObserverState F). true)
            (λ st. st) merge_row s d in
        (
          ap (λ w. w.0) e,
          ap (λ w. lookup bytes_discrete h w.2.db.observers) e
              ∙ lookup-written bytes_discrete (observers_table {F = F})
                  (λ (st : ObserverState F). true) (λ st. st) merge_row s d.observers h m
              ∙ same_row (lookup bytes_discrete h s) row
              ∙ rows,
        )
