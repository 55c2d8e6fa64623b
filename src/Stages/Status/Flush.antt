-- ===== src/Stages/Status/Flush.antt =====
-- `Flush` of the stage: which row of `observer_status` a key keeps.
use mathlib.Core.List.{lookup}
use mathlib.Core.Option
use mesh_bug.Prelude.{
  ◌≡◌, refl, ◌∙◌, Option, none, some, List, [], ◌∷◌, ite, arith, Option-cases, inl, inr,
}
use mesh_bug.Prelude.Maps.{lookup-put}
use mesh_bug.Event.{FloatOps}
use mesh_bug.Store.{Db, StatusColumns, ok, exec}
use mesh_bug.Stages.Status.{
  columns_of, StatusKey, StatusRow, State, key_discrete, insert_new, insert_rows, flush,
}

module _ {F : Type 0} where
  abbrev pub or_else :
      Option (StatusColumns F) → Option (StatusColumns F) → Option (StatusColumns F)
  or_else none b = b
  or_else (some a) b = some a

  -- The first buffered row of a key.
  unfoldable pub first_of : StatusKey → List (StatusRow F) → Option (StatusColumns F)
  first_of k [] = none
  first_of k (r ∷ rs) = ite (key_discrete (r.observer_id, r.ts) k) (some r.columns) (first_of k rs)

module _ {F : Type 0} ⦃fl : FloatOps F⦄ where
  lookup-insert_new :
      (k : StatusKey) (r : StatusRow F) (d : Db F)
      → lookup key_discrete k (insert_new r d).observer_status
        ≡ or_else
            (lookup key_discrete k d.observer_status)
            (ite (key_discrete (r.observer_id, r.ts) k) (some (columns_of r.columns)) none)
  unfolding insert_new
  lookup-insert_new k r d =
      elim (Option-cases (lookup key_discrete (r.observer_id, r.ts) d.observer_status)) [
        | inl e ↦ ground (
          arith,
          e,
          lookup-put key_discrete (r.observer_id, r.ts) k (columns_of r.columns) d.observer_status,
        )
        | inr (c, e) ↦ ground (arith, e)
      ]

  insert_rows-first_of :
      (k : StatusKey) (rs : List (StatusRow F)) (d : Db F)
      → let (r, t) = insert_rows rs (record { db = d; faults = [] }) in
        (r ≡ ok tt)
        × (lookup key_discrete k t.db.observer_status
            ≡ or_else
                (lookup key_discrete k d.observer_status)
                (Option.map columns_of (first_of k rs)))
  unfolding insert_rows exec first_of
  insert_rows-first_of k [] d = (refl, ground arith)
  insert_rows-first_of k (r ∷ rs) d =
      let (done, rest) = insert_rows-first_of k rs (insert_new r d) in
      (done, rest ∙ ground (arith, lookup-insert_new k r d))

  -- When the server refuses nothing a status row that is stored stays, and a key that is not stored
  -- gets the first of its buffered rows, with the last snr as its numeric(6,2) column keeps it; keys
  -- without a buffered row are left alone.
  pub flush-first_of :
      (s : State F) (d : Db F) (k : StatusKey)
      → let (r, s', t) = flush s (record { db = d; faults = [] }) in
        (r ≡ ok tt)
        × (lookup key_discrete k t.db.observer_status
            ≡ or_else
                (lookup key_discrete k d.observer_status)
                (Option.map columns_of (first_of k s.buf)))
  unfolding flush
  flush-first_of s d k = insert_rows-first_of k s.buf d
