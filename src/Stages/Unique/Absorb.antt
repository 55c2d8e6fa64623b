-- ===== src/Stages/Unique/Absorb.antt =====
-- What the loop over the joined rows adds to the entry of one hash.
use mathlib.Core.List.{lookup, foldl-append}
use mathlib.Core.Option
use mesh_bug.Prelude.{
  ◌≡◌, refl, ap, ◌∙◌, Bool, true, false, not, ◌&&◌, ◌||◌, Option, none, some, List, [], ◌∷◌, Bytes,
  Slice, if◌then◌else◌, ite, bytes_discrete, arith, inl, inr, Bool-cases, Option-cases, foldl, map,
}
use mesh_bug.Prelude.Maps.{Map, IsMap, lookup-put}
use mesh_bug.Prelude.Sets.{contains, IsSetList, add-IsSetList, contains-add}
use mesh_bug.Store.{Db, PacketRow, ObservationRow, UniqueRow}
use mesh_bug.Stages.Unique.{
  State, UniqueState, HistoryRow, merge_row, pending, join_hash, join, absorb, load_row,
}
use mesh_bug.Stages.Unique.Facts.{facts_of, has_hash, has_slice, observers_of, facts-absorb}

-- Whether an entry is asked for.
abbrev pub is_pending : Option UniqueState → Bool
is_pending none = false
is_pending (some st) = not (st.loaded || not st.dirty)

pub contains-pending :
    (h : Bytes) (s : State)
    → IsMap bytes_discrete s
    → contains bytes_discrete h (pending s) ≡ is_pending (lookup bytes_discrete h s)
unfolding pending lookup contains
contains-pending h [] m = refl
contains-pending h ((k, st) ∷ s) m =
    ground (arith, contains-pending h s m.1, contains-pending k s m.1)

lookup-load_row :
    (h : Bytes) (s : State) (r : HistoryRow)
    → lookup bytes_discrete h (load_row s r)
      ≡ Option.map
          (λ st. ite (bytes_discrete r.hash h) (absorb r st) st)
          (lookup bytes_discrete h s)
unfolding load_row
lookup-load_row h s r = elim (Option-cases (lookup bytes_discrete r.hash s)) [
  | inl e ↦ ground (arith, e)
  | inr (st, e) ↦ ground (arith, e, lookup-put bytes_discrete r.hash h (absorb r st) s)
]

-- one observation (observer and hash) that is joined with the row of `h`
absorb_one : Bool → Option UniqueRow → Bytes → Bytes → Slice → UniqueState → UniqueState
absorb_one asked none h obs b st = st
absorb_one asked (some r) h obs b st =
    if has_slice h b && asked
    then absorb (record { hash = h; observer = obs; first_seen = r.first_seen }) st
    else st

load-join_hash :
    (h : Bytes) (hashes : List Bytes) (unique : Map Bytes UniqueRow) (s : State) (obs : Bytes)
    (b : Slice)
    → lookup bytes_discrete h (foldl load_row s (join_hash hashes unique obs b))
      ≡ Option.map
          (absorb_one (contains bytes_discrete h hashes) (lookup bytes_discrete h unique) h obs b)
          (lookup bytes_discrete h s)
unfolding join_hash absorb_one
load-join_hash h hashes unique s obs none =
    absorb_none (lookup bytes_discrete h s) (lookup bytes_discrete h unique)
  where
    absorb_none :
        (o : Option UniqueState) (row : Option UniqueRow)
        → o ≡ Option.map (absorb_one (contains bytes_discrete h hashes) row h obs none) o
    absorb_none none row = refl
    absorb_none (some st) none = refl
    absorb_none (some st) (some r) = refl
load-join_hash h hashes unique s obs (some b) =
    elim (Option-cases (lookup bytes_discrete b unique)) [
      | inl e ↦ ground (arith, e)
      | inr (pu, e) ↦ ground (
        arith,
        e,
        lookup-load_row h s (record { hash = b; observer = obs; first_seen = pu.first_seen }),
      )
    ]

module _ {F : Type 0} where
  unfoldable pub absorb_all :
      Bool → Option UniqueRow → Bytes → List (PacketRow F) → UniqueState → UniqueState
  unfolding absorb_one
  absorb_all asked row h [] st = st
  absorb_all asked row h (po ∷ pos) st =
      absorb_all asked row h pos (absorb_one asked row h po.observer_id po.packet_hash st)

  module _ (h : Bytes) (hashes : List Bytes) (d : Db F) where
    identity : (o : Option UniqueState) → o ≡ Option.map (λ st. st) o
    identity none = refl
    identity (some st) = refl

    pub load-join :
        (s : State) (pos : List (ObservationRow F))
        → lookup bytes_discrete h (foldl load_row s (join hashes d pos))
          ≡ Option.map
              (absorb_all
                (contains bytes_discrete h hashes)
                (lookup bytes_discrete h d.packets_unique)
                h
                (map (λ o. o.packet) pos))
              (lookup bytes_discrete h s)
    unfolding join absorb_all
    load-join s [] = identity (lookup bytes_discrete h s)
    load-join s (po ∷ pos) =
        let first = join_hash hashes d.packets_unique po.observer_id po.packet_hash in
        rw foldl-append (
          load-join (foldl load_row s first) pos
          ∙ ap (Option.map _)
              (load-join_hash h hashes d.packets_unique s po.observer_id po.packet_hash)
          ∙ Option.map-map _ _ (lookup bytes_discrete h s))

module _ {F : Type 0} where
  -- without a stored row, or for an entry that is not asked for, nothing is absorbed
  pub absorb_all-none :
      (a : Bool) (h : Bytes) (pos : List (PacketRow F)) (st : UniqueState)
      → absorb_all a none h pos st ≡ st
  unfolding absorb_all
  absorb_all-none a h [] st = refl
  absorb_all-none a h (po ∷ pos) st = absorb_all-none a h pos st

  pub absorb_all-unasked :
      (row : Option UniqueRow) (h : Bytes) (pos : List (PacketRow F)) (st : UniqueState)
      → absorb_all false row h pos st ≡ st
  unfolding absorb_all
  absorb_all-unasked none h pos st = absorb_all-none false h pos st
  absorb_all-unasked (some r) h [] st = refl
  absorb_all-unasked (some r) h (po ∷ pos) st = ground (arith, absorb_all-unasked (some r) h pos st)

  -- What an entry that is asked for takes from the stored observations of its hash.
  pub record Absorbed (h : Bytes) (r : UniqueRow) (pos : List (PacketRow F)) (st st' : UniqueState)
      : Type 0 where
    pub facts : facts_of (merge_row st' (some r)) ≡ facts_of (merge_row st (some r))
    pub set : IsSetList bytes_discrete st.observers → IsSetList bytes_discrete st'.observers
    pub members :
        (o : Bytes)
        → contains bytes_discrete o st'.observers ≡ (
            contains bytes_discrete o (observers_of h pos)
            || contains bytes_discrete o st.observers)
    pub loaded : st'.loaded ≡ st.loaded
    pub dirty : st'.dirty ≡ st.dirty

  Absorbed-hash :
      (h : Bytes) (r : UniqueRow) (po : PacketRow F) (pos : List (PacketRow F))
      (st st' : UniqueState)
      → has_hash h po ≡ true
      → Absorbed h r pos
          (absorb (record { hash = h; observer = po.observer_id; first_seen = r.first_seen }) st)
          st'
      → Absorbed h r (po ∷ pos) st st'
  unfolding observers_of absorb contains
  Absorbed-hash h r po pos st st' k a =
      let row : HistoryRow = record {
        hash = h;
        observer = po.observer_id;
        first_seen = r.first_seen;
      } in
      record {
        facts = a.facts ∙ facts-absorb row st r refl;
        set = λ s. a.set (add-IsSetList bytes_discrete po.observer_id st.observers s);
        members = λ o.
            ground (arith, a.members o, contains-add bytes_discrete o po.observer_id st.observers);
        loaded = a.loaded;
        dirty = a.dirty;
      }

  pub absorb_all-Absorbed :
      (h : Bytes) (r : UniqueRow) (pos : List (PacketRow F)) (st : UniqueState)
      → Absorbed h r pos st (absorb_all true (some r) h pos st)
  unfolding absorb_all observers_of contains
  absorb_all-Absorbed h r [] st = record {
    facts = refl;
    set = λ s. s;
    members = λ o. refl;
    loaded = refl;
    dirty = refl;
  }
  absorb_all-Absorbed h r (po ∷ pos) st = elim (Bool-cases (has_hash h po)) [
    | inl k ↦ rw k (Absorbed-hash h r po pos st _ k (absorb_all-Absorbed h r pos _))
    | inr k ↦ rw k (skipped k (absorb_all-Absorbed h r pos st))
  ]
    where
      skipped :
          has_hash h po ≡ false
          → Absorbed h r pos st (absorb_all true (some r) h pos st)
          → Absorbed h r (po ∷ pos) st (absorb_all true (some r) h pos st)
      skipped k a = record {
        facts = a.facts;
        set = a.set;
        members = λ o. ground (arith, a.members o);
        loaded = a.loaded;
        dirty = a.dirty;
      }
