-- ===== src/Projection/Batch.antt =====
-- A batch that the server accepts keeps the tables and the memory in agreement.
use mathlib.Core.List.{append-nil, append_assoc}
use mesh_bug.Prelude.{
  ℕ, ◌<◌, ◌≡◌, refl, sym, ap, ◌∙◌, true, false, List, [], ◌∷◌, ◌++◌, map, Bytes, arith, leb,
}
use mesh_bug.Event.{FloatOps, Event, Payload, packet, status, is_zero}
use mesh_bug.Store.{Db, PacketRow, ok}
use mesh_bug.Pipeline.{high_water, process_batch, run_transaction, write_batch, commit}
use mesh_bug.Projection.{Memory, packet_stages, no_faults, Dated}
use mesh_bug.Stages.Observations
use mesh_bug.Stages.Observations.{columns_of}
use mesh_bug.Stages.Observations.Flush.{packets, counted}
use mesh_bug.Projection.Applied.{
  apply_one, applied, apply_all-applied, Good, applied-Applied, Good-Applied,
}
use mesh_bug.Projection.Committed.{
  written_db, Committed, write_batch-Committed, left, settle-left, high_water-zero, packets-after,
  left-Good,
}

module _ {F : Type 0} where
  -- The observations that the packets of a batch become.
  unfoldable pub observed_payload : Event F → Payload F → List (PacketRow F)
  observed_payload e (status _) = []
  observed_payload e (packet p) = Observations.packet_row e p ∷ []

  unfoldable pub observed : List (Event F) → List (PacketRow F)
  observed [] = []
  observed (e ∷ es) = observed_payload e e.payload ++ observed es

  apply-buf :
      (e : Event F) (p : Payload F) (o : Observations.State F)
      → (Observations.apply_payload e p o).buf ≡ o.buf ++ observed_payload e p
  unfolding Observations.apply_payload observed_payload
  apply-buf e (status _) o = sym (append-nil o.buf)
  apply-buf e (packet p) o = refl

  applied-buf :
      (es : List (Event F)) (s : Memory F)
      → (applied es s).observations.buf ≡ s.observations.buf ++ observed es
  unfolding observed apply_one Observations.apply
  applied-buf [] s = sym (append-nil s.observations.buf)
  applied-buf (e ∷ es) s =
      applied-buf es (apply_one e s)
      ∙ ap (λ b. b ++ observed es) (apply-buf e e.payload s.observations)
      ∙ append_assoc s.observations.buf (observed_payload e e.payload) (observed es)

module _ {F : Type 0} ⦃fl : FloatOps F⦄ where
  process_batch-commit :
      (d : Db F) (s : Memory F) (es : List (Event F)) (name : Bytes) (c : ℕ)
      → leb c 0 ≡ false
      → process_batch packet_stages es name c no_faults s d
        ≡ commit packet_stages false
            (high_water es 0)
            d
            (write_batch packet_stages name c (applied es s) (record { db = d; faults = [] }))
  unfolding process_batch run_transaction
  process_batch-commit d s es name c pos = ground (arith, pos, apply_all-applied es s)

  process_batch-left :
      (d : Db F) (s : Memory F) (es : List (Event F)) (name : Bytes) (c : ℕ)
      → leb c 0 ≡ false
      → (w : Committed d (applied es s) name c)
      → let o = process_batch packet_stages es name c no_faults s d in
        (o.result ≡ ok tt)
        × (o.tables ≡ written_db d w.rows (applied es s).observations.buf name c)
        × (o.memory ≡ left (high_water es 0) w.entries (counted (applied es s).observations))
  unfolding commit
  process_batch-left d s es name c pos w =
      let e =
        process_batch-commit d s es name c pos
        ∙ ap (commit packet_stages false (high_water es 0) d) w.ran in
      (
        ap (λ o. o.result) e,
        ap (λ o. o.tables) e,
        ap (λ o. o.memory) e
            ∙ settle-left (high_water es 0) w.entries (counted (applied es s).observations),
      )

  nothing : observed {F = F} [] ≡ []
  unfolding observed
  nothing = refl

  -- When memory and tables agree, a batch of events with times and a positive cursor of which the
  -- server refuses nothing succeeds, its packets are stored behind the others, with the snr as its
  -- numeric(6,2) column keeps it, and memory and tables still agree.
  pub batch-Good :
      (d : Db F) (s : Memory F) (es : List (Event F)) (name : Bytes) (c : ℕ)
      → 0 < c
      → Dated es
      → Good d s
      → let o = process_batch packet_stages es name c no_faults s d in
        (o.result ≡ ok tt)
        × Good o.tables o.memory
        × (packets o.tables ≡ packets d ++ map columns_of (observed es))
  batch-Good d s es name c pos dated g =
      let a = applied-Applied d es s (Good-Applied d s g) in
      let w = write_batch-Committed d (applied es s) name c a.is_map in
      let (r, t, m) = process_batch-left d s es name c (ground arith) w in
      let buf : (applied es s).observations.buf ≡ observed es =
        applied-buf es s ∙ ap (λ b. b ++ observed es) g.buffered in
      let idle : (is_zero (high_water es 0) ≡ true → (applied es s).observations.buf ≡ []) =
        λ z. buf ∙ ap observed (high_water-zero es dated z) ∙ nothing in
      (
        r,
        rw (t, m) (left-Good d (applied es s) name c a w (high_water es 0) idle),
        rw t (
            packets-after d (applied es s) name c a w
            ∙ ap (λ b. packets d ++ map columns_of b) buf),
      )
