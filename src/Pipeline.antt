-- ===== src/Pipeline.antt =====
-- The projection pipeline: internal/project/pipeline/pipeline.go. The stages' memories are one
-- value `S`; a stage of a list acts on its part of it (`on_part`). A batch is a function of the
-- memory, the tables and what the server refuses: the start of the transaction, any statement, or
-- the commit. A batch that fails leaves the tables as they were, and the memory as it was changed.
pub mod Atomic
use mathlib.Core.List.{lookup}
use mesh_bug.Prelude.{
  ℕ, ◌==◌, leb, Bool, true, false, List, [], ◌∷◌, ◌++◌, Bytes, if◌then◌else◌, bytes_discrete,
}
use mesh_bug.Prelude.Maps.{put}
use mesh_bug.Event.{Event, Time, after, is_zero}
use mesh_bug.Store.{Db, Tx, Result, ok, err, Exec, exec, Stage}

-- A field of the projector's memory.
pub record Part (S P : Type 0) : Type 0 where
  pub get : S → P
  pub set : P → S → S

module _ {E S P D N : Type 0} where
  unfoldable pub on_part : Part S P → Stage E P D N → Stage E S D N
  on_part part st = record {
    name = st.name;
    apply = λ e s. let (r, p) = st.apply e (part.get s) in (r, part.set p s);
    flush = λ s t. let (r, p, t') = st.flush (part.get s) t in (r, part.set p s, t');
    notify = λ s. let (ms, p) = st.notify (part.get s) in (ms, part.set p s);
    evict = λ hwm s. part.set (st.evict hwm (part.get s)) s;
    clear = λ s. part.set (st.clear (part.get s)) s;
  }

module _ {E S D N : Type 0} where
  -- the inner loop over the stages; an error ends it
  unfoldable pub apply_stages : List (Stage E S D N) → E → S → Result (Unit {0}) × S
  apply_stages [] e s = (ok tt, s)
  apply_stages (st ∷ sts) e s =
      let (r, s') = st.apply e s in elim r [ err ↦ (err, s') | ok _ ↦ apply_stages sts e s' ]

  unfoldable pub apply_all : List (Stage E S D N) → List E → S → Result (Unit {0}) × S
  unfolding apply_stages
  apply_all sts [] s = (ok tt, s)
  apply_all sts (e ∷ es) s =
      let (r, s') = apply_stages sts e s in elim r [ err ↦ (err, s') | ok _ ↦ apply_all sts es s' ]

  unfoldable pub flush_stages : List (Stage E S D N) → Exec S D (Unit {0})
  flush_stages [] s t = (ok tt, s, t)
  flush_stages (st ∷ sts) s t =
      let (r, s', t') = st.flush s t in
      elim r [ err ↦ (err, s', t') | ok _ ↦ flush_stages sts s' t' ]

  -- after the commit: Notify, then Evict if some event had a time
  unfoldable pub settle : List (Stage E S D N) → Time → S → List N × S
  settle [] hwm s = ([], s)
  settle (st ∷ sts) hwm s =
      let (ms, s₁) = st.notify s in
      let s₂ = if is_zero hwm then s₁ else st.evict hwm s₁ in
      let (ns, s₃) = settle sts hwm s₂ in (ms ++ ns, s₃)

  unfoldable pub clear : List (Stage E S D N) → S → S
  clear [] s = s
  clear (st ∷ sts) s = clear sts (st.clear s)

-- `if e.TS.After(hwm) { hwm = e.TS }` over the batch
unfoldable pub high_water : {F : Type 0} → List (Event F) → Time → Time
high_water [] hwm = hwm
high_water (e ∷ es) hwm = high_water es (if after e.ts hwm then e.ts else hwm)

-- INSERT INTO projector_state … ON CONFLICT (name) DO UPDATE
unfoldable pub set_cursor : {F : Type 0} → Bytes → ℕ → Db F → Db F
set_cursor name id d = record d { projector_state = put bytes_discrete name id d.projector_state }

unfoldable pub save_cursor : {F S : Type 0} → Bytes → ℕ → Exec S (Db F) (Unit {0})
unfolding set_cursor exec
save_cursor name id = exec (set_cursor name id)

-- What the server refuses in a batch.
pub record Faults : Type 0 where
  pub begin : Bool
  pub statements : List Bool
  pub commit : Bool

pub record Outcome (F S N : Type 0) : Type 0 where
  pub result : Result (Unit {0})
  pub memory : S
  pub tables : Db F
  pub sent : List N

module _ {F S N : Type 0} where
  unfoldable pub failed : S → Db F → Outcome F S N
  failed s d = record { result = err; memory = s; tables = d; sent = [] }

  unfoldable pub commit :
      List (Stage (Event F) S (Db F) N)
      → Bool
      → Time
      → Db F
      → Result (Unit {0}) × S × Tx (Db F)
      → Outcome F S N
  unfolding failed settle
  commit sts refused hwm d (err, s, t) = failed s d
  commit sts true hwm d (ok _, s, t) = failed s d
  commit sts false hwm d (ok _, s, t) =
      let (ns, s') = settle sts hwm s in
      record { result = ok tt; memory = s'; tables = t.db; sent = ns }

  unfoldable pub write_batch :
      List (Stage (Event F) S (Db F) N) → Bytes → ℕ → Exec S (Db F) (Unit {0})
  unfolding flush_stages save_cursor
  write_batch sts name new_cursor s t =
      let (r, s', t') = flush_stages sts s t in
      elim r [ err ↦ (err, s', t') | ok _ ↦ save_cursor name new_cursor s' t' ]

  unfoldable pub run_transaction :
      List (Stage (Event F) S (Db F) N) → Time → Bytes → ℕ → Faults → S → Db F → Outcome F S N
  unfolding failed write_batch commit
  run_transaction sts hwm name new_cursor f s d =
      if f.begin
      then failed s d
      else commit sts f.commit hwm d
          (write_batch sts name new_cursor s (record { db = d; faults = f.statements }))

  unfoldable pub process_batch :
      List (Stage (Event F) S (Db F) N)
      → List (Event F)
      → Bytes
      → ℕ
      → Faults
      → S
      → Db F
      → Outcome F S N
  unfolding apply_all high_water run_transaction failed
  process_batch sts events name new_cursor f s d =
      if leb new_cursor 0
      then record { result = ok tt; memory = s; tables = d; sent = [] }
      else (let (r, s') = apply_all sts events s in
          elim r [
            | err ↦ failed s' d
            | ok _ ↦ run_transaction sts (high_water events 0) name new_cursor f s' d
          ])
