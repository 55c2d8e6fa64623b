-- ===== src/Stages/Unique/Facts.antt =====
-- What `packets_unique` says of a packet, described by the observations of its hash alone, and how
-- one more observation moves it. The order of the observations is the order of their arrival.
use mathlib.Core.Option
use mesh_bug.Prelude.{
  ℕ, ◌≡◌, refl, Bool, true, false, Option, none, some, List, [], ◌∷◌, ◌++◌, Bytes, Slice,
  slice_bytes, ltb, if◌then◌else◌, is_nil, min, max, ite, bytes_discrete, arith, ◌≢◌, Bool-cases,
  inl, inr,
}
use mesh_bug.Event.{Event, PacketPayload, Time}
use mesh_bug.Store.{PacketRow, UniqueRow, coalesce, nullif_empty}
use mesh_bug.Stages.Observations.{packet_row}
use mesh_bug.Stages.Unique.{UniqueState, HistoryRow, fresh, observe, merge_row, absorb}

-- The columns of a row but the count of observers; an unknown text is empty.
pub record Facts : Type 0 where
  pub first_seen : Time
  pub last_seen : Time
  pub packet_type : Bytes
  pub route : Bytes
  pub decoded_type : Option ℕ
  pub source_prefix : Slice

abbrev pub known_text : Option Bytes → Bytes
known_text none = []
known_text (some t) = t

abbrev pub facts_of : UniqueRow → Facts
facts_of r = record {
  first_seen = r.first_seen;
  last_seen = r.last_seen;
  packet_type = known_text r.packet_type;
  route = known_text r.route;
  decoded_type = r.decoded_type;
  source_prefix = r.source_prefix;
}

abbrev pub nonempty : Slice → Slice
nonempty none = none
nonempty (some []) = none
nonempty (some (x ∷ xs)) = some (x ∷ xs)

abbrev pub latest_text : Bytes → Bytes → Bytes
latest_text [] old = old
latest_text (x ∷ xs) old = x ∷ xs

earlier : (t a r : ℕ) → min r (if ltb t a then t else a) ≡ min (min r a) t
earlier t a r = ground arith

later : (t a r : ℕ) → max r (if ltb a t then t else a) ≡ max (max r a) t
later t a r = ground arith

earlier_alone : (t a : ℕ) → (if ltb t a then t else a) ≡ min a t
earlier_alone t a = ground arith

later_alone : (t a : ℕ) → (if ltb a t then t else a) ≡ max a t
later_alone t a = ground arith

abbrev written_text : Bytes → Option Bytes → Bytes
written_text t r = known_text (coalesce (nullif_empty (some t)) r)

latest :
    (new old : Bytes) (r : Option Bytes)
    → written_text (if is_nil new then old else new) r ≡ latest_text new (written_text old r)
latest [] old r = refl
latest (x ∷ xs) old r = refl

latest_alone : (new old : Bytes) → (if is_nil new then old else new) ≡ latest_text new old
latest_alone [] old = refl
latest_alone (x ∷ xs) old = refl

decoded_alone : (new old : Option ℕ) → elim new [ none ↦ old | some t ↦ some t ] ≡ coalesce new old
decoded_alone none old = refl
decoded_alone (some t) old = refl

decoded :
    (new old r : Option ℕ)
    → coalesce (elim new [ none ↦ old | some t ↦ some t ]) r ≡ coalesce new (coalesce old r)
decoded none old r = refl
decoded (some t) old r = refl

abbrev pick_source : Slice → Slice → Slice
pick_source old new = elim old [
  | none ↦ if is_nil (slice_bytes new) then none else new
  | some b ↦ some b
]

source_step :
    (old new r : Slice)
    → coalesce r (pick_source old new) ≡ coalesce (coalesce r old) (nonempty new)
source_step old new (some b) = refl
source_step (some b) new none = refl
source_step none none none = refl
source_step none (some []) none = refl
source_step none (some (x ∷ xs)) none = refl

abbrev pub has_slice : Bytes → Slice → Bool
has_slice h none = false
has_slice h (some b) = ite (bytes_discrete b h) true false

module _ {F : Type 0} where
  abbrev pub has_hash : Bytes → PacketRow F → Bool
  has_hash h po = has_slice h po.packet_hash

  -- The earliest and the latest time, the latest type, route and decoded type that are known, and
  -- the first source prefix that is known.
  unfoldable pub note : PacketRow F → Option Facts → Facts
  note po none = record {
    first_seen = po.ts;
    last_seen = po.ts;
    packet_type = po.packet_type;
    route = po.route;
    decoded_type = po.decoded_type;
    source_prefix = nonempty po.source_prefix;
  }
  note po (some f) = record {
    first_seen = min f.first_seen po.ts;
    last_seen = max f.last_seen po.ts;
    packet_type = latest_text po.packet_type f.packet_type;
    route = latest_text po.route f.route;
    decoded_type = coalesce po.decoded_type f.decoded_type;
    source_prefix = coalesce f.source_prefix (nonempty po.source_prefix);
  }

  unfoldable pub summary_from : Bytes → Option Facts → List (PacketRow F) → Option Facts
  unfolding note
  summary_from h acc [] = acc
  summary_from h acc (po ∷ pos) =
      summary_from h (if has_hash h po then some (note po acc) else acc) pos

  -- What the observations say of the hash `h`, if there are any.
  unfoldable pub summary : Bytes → List (PacketRow F) → Option Facts
  unfolding summary_from
  summary h pos = summary_from h none pos

  -- The observers of the hash `h`, as often as they saw it.
  unfoldable pub observers_of : Bytes → List (PacketRow F) → List Bytes
  observers_of h [] = []
  observers_of h (po ∷ pos) = elim (has_hash h po) [
    | true ↦ po.observer_id ∷ observers_of h pos
    | false ↦ observers_of h pos
  ]

  pub summary_from-append :
      (h : Bytes) (acc : Option Facts) (xs ys : List (PacketRow F))
      → summary_from h acc (xs ++ ys) ≡ summary_from h (summary_from h acc xs) ys
  unfolding summary_from
  summary_from-append h acc [] ys = refl
  summary_from-append h acc (x ∷ xs) ys =
      summary_from-append h (if has_hash h x then some (note x acc) else acc) xs ys

  pub summary-snoc :
      (h : Bytes) (xs : List (PacketRow F)) (po : PacketRow F)
      → summary h (xs ++ po ∷ [])
        ≡ (if has_hash h po then some (note po (summary h xs)) else summary h xs)
  unfolding summary
  summary-snoc h xs po = summary_from-append h none xs (po ∷ [])

  pub observers_of-append :
      (h : Bytes) (xs ys : List (PacketRow F))
      → observers_of h (xs ++ ys) ≡ observers_of h xs ++ observers_of h ys
  unfolding observers_of
  observers_of-append h [] ys = refl
  observers_of-append h (x ∷ xs) ys = ground (arith, observers_of-append h xs ys)

  -- Observations without an observer of `h` say nothing of it.
  summary_from_silent :
      (h : Bytes) (acc : Option Facts) (pos : List (PacketRow F))
      → observers_of h pos ≡ []
      → summary_from h acc pos ≡ acc
  unfolding summary_from observers_of
  summary_from_silent h acc [] e = refl
  summary_from_silent h acc (po ∷ pos) e = ground (arith, summary_from_silent h acc pos)

  pub summary_silent :
      (h : Bytes) (xs ys : List (PacketRow F))
      → observers_of h ys ≡ []
      → summary h (xs ++ ys) ≡ summary h xs
  unfolding summary
  summary_silent h xs ys e =
      ground
        (arith, summary_from-append h none xs ys, summary_from_silent h (summary_from h none xs) ys)

  summary_from-some :
      (h : Bytes) (f : Facts) (pos : List (PacketRow F)) → summary_from h (some f) pos ≢ none
  unfolding summary_from
  summary_from-some h f [] e = cc
  summary_from-some h f (po ∷ pos) e = elim (Bool-cases (has_hash h po)) [
    | inl k ↦ summary_from-some h (note po (some f)) pos (rw k at e)
    | inr k ↦ summary_from-some h f pos (rw k at e)
  ]

  -- A hash of which nothing is said was seen by nobody.
  pub observers_of-none :
      (h : Bytes) (pos : List (PacketRow F)) → summary h pos ≡ none → observers_of h pos ≡ []
  unfolding summary summary_from observers_of
  observers_of-none h [] e = refl
  observers_of-none h (po ∷ pos) e = elim (Bool-cases (has_hash h po)) [
    | inl k ↦ absurd (summary_from-some h (note po none) pos (rw k at e))
    | inr k ↦ rw (k, observers_of) (observers_of-none h pos (rw k at e))
  ]

  -- An event that is observed in memory moves the row to be written as the summary moves.
  pub facts-observe :
      (e : Event F) (p : PacketPayload F) (st : UniqueState) (row : Option UniqueRow)
      → facts_of (merge_row (observe e p st) row)
        ≡ note (packet_row e p) (some (facts_of (merge_row st row)))
  unfolding merge_row observe note packet_row
  facts-observe e p st none = λ i. record {
    first_seen = earlier_alone e.ts st.first_seen i;
    last_seen = later_alone e.ts st.last_seen i;
    packet_type = latest_alone p.packet_type st.packet_type i;
    route = latest_alone p.route st.route i;
    decoded_type = decoded_alone p.decoded_type st.decoded_type i;
    source_prefix = source_step st.source_prefix p.source_prefix none i;
  }
  facts-observe e p st (some r) = λ i. record {
    first_seen = earlier e.ts st.first_seen r.first_seen i;
    last_seen = later e.ts st.last_seen r.last_seen i;
    packet_type = latest p.packet_type st.packet_type r.packet_type i;
    route = latest p.route st.route r.route i;
    decoded_type = decoded p.decoded_type st.decoded_type r.decoded_type i;
    source_prefix = source_step st.source_prefix p.source_prefix r.source_prefix i;
  }

  pub facts-observe-fresh :
      (e : Event F) (p : PacketPayload F) (row : Option UniqueRow)
      → facts_of (merge_row (observe e p (fresh e)) row)
        ≡ note (packet_row e p) (Option.map facts_of row)
  unfolding merge_row observe note packet_row fresh
  facts-observe-fresh e p none = ground arith
  facts-observe-fresh e p (some r) = ground arith

-- A second write of the same entry changes nothing.
pub facts-merge_row_twice :
    (st : UniqueState) (row : Option UniqueRow)
    → facts_of (merge_row st (some (merge_row st row))) ≡ facts_of (merge_row st row)
unfolding merge_row
facts-merge_row_twice st none = ground arith
facts-merge_row_twice st (some r) = ground arith

-- The first time of the stored row, merged into memory, is merged into the row once more.
pub facts-absorb :
    (h : HistoryRow) (st : UniqueState) (r : UniqueRow)
    → h.first_seen ≡ r.first_seen
    → facts_of (merge_row (absorb h st) (some r)) ≡ facts_of (merge_row st (some r))
unfolding merge_row absorb
facts-absorb h st r e = ground arith
