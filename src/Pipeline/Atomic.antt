-- ===== src/Pipeline/Atomic.antt =====
-- What a batch leaves behind, whatever its stages do and whatever the server refuses.
use mathlib.Core.List.{lookup}
use mesh_bug.Prelude.{
  ℕ, ◌<◌, ◌≡◌, refl, ◌∙◌, Bool, true, false, some, List, [], ◌∷◌, Bytes, leb, if◌then◌else◌,
  bytes_discrete, arith, ◌⊎◌, inl, inr, Bool-cases, if_pos,
}
use mesh_bug.Prelude.Maps.{lookup-put}
use mesh_bug.Event.{Event, Time}
use mesh_bug.Store.{Db, Tx, Result, ok, err, Stage, exec}
use mesh_bug.Pipeline.{
  Outcome, Faults, apply_all, flush_stages, high_water, set_cursor, save_cursor, failed, commit,
  write_batch, run_transaction, process_batch,
}

module _ {F S : Type 0} where
  save_cursor-saved :
      (name : Bytes) (c : ℕ) (s : S) (d : Db F) (faults : List Bool)
      → let w = save_cursor name c s (record { db = d; faults = faults }) in
        w.0 ≡ ok tt → lookup bytes_discrete name w.2.db.projector_state ≡ some c
  unfolding save_cursor set_cursor exec
  save_cursor-saved name c s d [] e =
      lookup-put bytes_discrete name name c d.projector_state
      ∙ if_pos (bytes_discrete name name) refl _ _
  save_cursor-saved name c s d (true ∷ fs) e = cc
  save_cursor-saved name c s d (false ∷ fs) e =
      lookup-put bytes_discrete name name c d.projector_state
      ∙ if_pos (bytes_discrete name name) refl _ _

module _ {F S N : Type 0} where
  -- A batch that fails leaves no trace in the tables; one that succeeds leaves its cursor.
  abbrev pub Atomic : Bytes → ℕ → Db F → Outcome F S N → Type 0
  Atomic name c d o =
      ((o.result ≡ err) × (o.tables ≡ d) × (o.sent ≡ []))
      ⊎ ((o.result ≡ ok tt) × (lookup bytes_discrete name o.tables.projector_state ≡ some c))

  failed-Atomic : (name : Bytes) (c : ℕ) (d : Db F) (s : S) → Atomic name c d (failed s d)
  unfolding failed
  failed-Atomic name c d s = inl (refl, refl, refl)

  commit-Atomic :
      (sts : List (Stage (Event F) S (Db F) N)) (refused : Bool) (hwm : Time) (name : Bytes) (c : ℕ)
      (d : Db F) (r : Result (Unit {0})) (s : S) (t : Tx (Db F))
      → (r ≡ ok tt → lookup bytes_discrete name t.db.projector_state ≡ some c)
      → Atomic name c d (commit sts refused hwm d (r, s, t))
  unfolding commit
  commit-Atomic sts refused hwm name c d err s t saved = failed-Atomic name c d s
  commit-Atomic sts true hwm name c d (ok _) s t saved = failed-Atomic name c d s
  commit-Atomic sts false hwm name c d (ok _) s t saved = inr (refl, saved refl)

  write_batch-saved :
      (sts : List (Stage (Event F) S (Db F) N)) (name : Bytes) (c : ℕ) (s : S) (t : Tx (Db F))
      → let w = write_batch sts name c s t in
        w.0 ≡ ok tt → lookup bytes_discrete name w.2.db.projector_state ≡ some c
  unfolding write_batch
  write_batch-saved sts name c s t = by_result (flush_stages sts s t)
    where
      by_result :
          (f : Result (Unit {0}) × S × Tx (Db F))
          → let w : Result (Unit {0}) × S × Tx (Db F) = elim f.0 [
            | err ↦ (err, f.1, f.2)
            | ok _ ↦ save_cursor name c f.1 f.2
          ] in
            w.0 ≡ ok tt → lookup bytes_discrete name w.2.db.projector_state ≡ some c
      by_result (err, s', t') e = cc
      by_result (ok _, s', t') e = save_cursor-saved name c s' t'.db t'.faults e

  run_transaction-Atomic :
      (sts : List (Stage (Event F) S (Db F) N)) (hwm : Time) (name : Bytes) (c : ℕ) (f : Faults)
      (s : S) (d : Db F)
      → Atomic name c d (run_transaction sts hwm name c f s d)
  unfolding run_transaction
  run_transaction-Atomic sts hwm name c f s d = by_begin f.begin
    where
      w : Result (Unit {0}) × S × Tx (Db F)
      w = write_batch sts name c s (record { db = d; faults = f.statements })

      by_begin :
          (b : Bool) → Atomic name c d (if b then failed s d else commit sts f.commit hwm d w)
      by_begin true = failed-Atomic name c d s
      by_begin false =
          commit-Atomic sts f.commit hwm name c d w.0 w.1 w.2
            (write_batch-saved sts name c s (record { db = d; faults = f.statements }))

  -- Whatever the stages do and whatever the server refuses, a batch with a positive cursor either
  -- fails, changes no table and sends nothing, or succeeds and leaves its cursor as the projector's.
  pub process_batch-Atomic :
      (sts : List (Stage (Event F) S (Db F) N)) (es : List (Event F)) (name : Bytes) (c : ℕ)
      (f : Faults) (s : S) (d : Db F)
      → 0 < c
      → Atomic name c d (process_batch sts es name c f s d)
  unfolding process_batch
  process_batch-Atomic sts es name c f s d pos = elim (Bool-cases (leb c 0)) [
    | inl e ↦ absurd (ground (arith, e))
    | inr e ↦ rw e (by_result (apply_all sts es s))
  ]
    where
      by_result :
          (a : Result (Unit {0}) × S)
          → Atomic name c d (elim a.0 [
            | err ↦ failed a.1 d
            | ok _ ↦ run_transaction sts (high_water es 0) name c f a.1 d
          ])
      by_result (err, s') = failed-Atomic name c d s'
      by_result (ok _, s') = run_transaction-Atomic sts (high_water es 0) name c f s' d
