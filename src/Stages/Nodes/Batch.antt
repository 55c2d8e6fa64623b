-- ===== src/Stages/Nodes/Batch.antt =====
-- A batch of adverts folded in memory and written at once, against one write for each advert.
use mathlib.Core.List.{lookup}
use mesh_bug.Prelude.{
  ◌≡◌, ◌≢◌, refl, sym, ap, ◌∙◌, true, Option, none, List, [], ◌∷◌, ◌++◌, Bytes, bytes_discrete,
}
use mesh_bug.Prelude.Maps.{IsMap}
use mesh_bug.Event.{Event, Payload, AdvertInfo, packet, status}
use mesh_bug.Store.{Db, NodesRow, ok}
use mesh_bug.Stages.Loop.{write_dirty_lem, lookup-written}
use mesh_bug.Stages.Nodes.{
  NodeState, State, merge_row, apply_found, apply_payload, apply, flush, nodes_table,
}
use mesh_bug.Stages.Nodes.Stands.{
  written_with, Stands, row_found, FoundDated, apply_found-Stands, apply_found-IsMap, same_row,
}

module _ {F : Type 0} where
  advert_of : Payload F → Option AdvertInfo
  advert_of (status _) = none
  advert_of (packet p) = p.advert

  -- The row after the adverts of a batch are written one by one.
  unfoldable pub one_by_one : Bytes → List (Event F) → Option NodesRow → Option NodesRow
  unfolding advert_of row_found
  one_by_one h [] row = row
  one_by_one h (e ∷ es) row = one_by_one h es (row_found h e.ts (advert_of e.payload) row)

  -- The adverts of a batch, and their events, have times.
  unfoldable pub Dated : List (Event F) → Type 0
  unfolding advert_of FoundDated
  Dated [] = Unit
  Dated (e ∷ es) = FoundDated e.ts (advert_of e.payload) × Dated es

  -- `Apply` of each event of a batch in turn.
  unfoldable pub applied : List (Event F) → State → State
  applied [] s = s
  applied (e ∷ es) s = applied es (apply e s)

  apply-found :
      (e : Event F) (p : Payload F) (s : State)
      → apply_payload e p s ≡ apply_found e.ts (advert_of p) s
  unfolding apply_payload advert_of apply_found
  apply-found e (status _) s = refl
  apply-found e (packet p) s = refl

  applied-Stands :
      (h : Bytes)
      → h ≢ []
      → (es : List (Event F)) (s : State) (change : Option NodesRow → Option NodesRow) → Dated es
      → IsMap bytes_discrete s
      → Stands h (lookup bytes_discrete h s) change
      → Stands h (lookup bytes_discrete h (applied es s)) (λ row. one_by_one h es (change row))
        × IsMap bytes_discrete (applied es s)
  unfolding applied apply one_by_one Dated
  applied-Stands h ne [] s change d m r = (r, m)
  applied-Stands h ne (e ∷ es) s change d m r =
      let found = advert_of e.payload in
      rw (apply-found e e.payload s) (
        applied-Stands h ne es (apply_found e.ts found s)
          (λ row. row_found h e.ts found (change row)) d.1 (apply_found-IsMap e.ts found s m)
          (apply_found-Stands h ne e.ts found s change d.0 r))

  -- When adverts have times and the server refuses nothing, a batch folded in memory and written at
  -- once leaves the row of each key that is not empty as if each advert of the batch had been written by itself, in
  -- order of arrival.
  pub flush-one_by_one :
      (es : List (Event F)) (d : Db F) (h : Bytes)
      → h ≢ []
      → Dated es
      → let (r, s, t) = flush (applied es []) (record { db = d; faults = [] }) in
        (r ≡ ok tt)
        × (lookup bytes_discrete h t.db.nodes ≡ one_by_one h es (lookup bytes_discrete h d.nodes))
  unfolding flush lookup written_with
  flush-one_by_one es d h ne dated =
      let (stands, m) =
        applied-Stands h ne es [] (λ row. row) dated tt
          (record { rows = λ row. refl; held = λ st e. cc }) in
      let s = applied es [] in
      let e =
        write_dirty_lem bytes_discrete (nodes_table {F = F}) (λ (st : NodeState). true) (λ st. st)
          merge_row s d in
      (
        ap (λ w. w.0) e,
        ap (λ w. lookup bytes_discrete h w.2.db.nodes) e
            ∙ lookup-written bytes_discrete (nodes_table {F = F}) (λ (st : NodeState). true)
                (λ st. st) merge_row s d.nodes h m
            ∙ same_row F (lookup bytes_discrete h s) (lookup bytes_discrete h d.nodes)
            ∙ stands.rows (lookup bytes_discrete h d.nodes),
      )

  Dated-append : (xs ys : List (Event F)) → Dated xs → Dated ys → Dated (xs ++ ys)
  unfolding Dated
  Dated-append [] ys p q = q
  Dated-append (x ∷ xs) ys p q = (p.0, Dated-append xs ys p.1 q)

  one_by_one-append :
      (h : Bytes) (xs ys : List (Event F)) (row : Option NodesRow)
      → one_by_one h (xs ++ ys) row ≡ one_by_one h ys (one_by_one h xs row)
  unfolding one_by_one
  one_by_one-append h [] ys row = refl
  one_by_one-append h (x ∷ xs) ys row =
      one_by_one-append h xs ys (row_found h x.ts (advert_of x.payload) row)

  -- When adverts have times, the key is not empty and the server refuses nothing, two batches leave
  -- the row of the key as one batch of all their adverts does.
  pub flush-cut :
      (xs ys : List (Event F)) (d : Db F) (h : Bytes)
      → h ≢ []
      → Dated xs
      → Dated ys
      → let d₁ = (flush (applied xs []) (record { db = d; faults = [] })).2.db in
        let d₂ = (flush (applied ys []) (record { db = d₁; faults = [] })).2.db in
        let d₁₂ = (flush (applied (xs ++ ys) []) (record { db = d; faults = [] })).2.db in
        lookup bytes_discrete h d₂.nodes ≡ lookup bytes_discrete h d₁₂.nodes
  flush-cut xs ys d h ne p q =
      let d₁ = (flush (applied xs []) (record { db = d; faults = [] })).2.db in
      (flush-one_by_one ys d₁ h ne q).1
      ∙ ap (one_by_one h ys) (flush-one_by_one xs d h ne p).1
      ∙ sym (one_by_one-append h xs ys (lookup bytes_discrete h d.nodes))
      ∙ sym (flush-one_by_one (xs ++ ys) d h ne (Dated-append xs ys p q)).1
