-- ===== src/Projection/Applied.antt =====
-- The events of a batch applied to memory.
use mathlib.Core.List.{lookup}
use mesh_bug.Prelude.{◌≡◌, ◌≢◌, refl, sym, subst, List, [], ◌∷◌, Bytes, bytes_discrete}
use mesh_bug.Prelude.Maps.{IsMap}
use mesh_bug.Event.{FloatOps, Event, Payload, packet, status}
use mesh_bug.Store.{Db, ok}
use mesh_bug.Pipeline.{apply_all, apply_stages, on_part}
use mesh_bug.Projection.{Memory, packet_stages}
use mesh_bug.Stages.Unique
use mesh_bug.Stages.Unique.Flush.{row_of}
use mesh_bug.Stages.Unique.Memory.{RowOk, At, apply_packet-At, apply_packet-IsMap}
use mesh_bug.Stages.Unique.Batch.{Settled, Settled-At}
use mesh_bug.Stages.Observations
use mesh_bug.Stages.Observations.Flush.{packets}

module _ {F : Type 0} where
  unfoldable pub apply_one : Event F → Memory F → Memory F
  apply_one e s = record {
    unique = Unique.apply e s.unique;
    observations = Observations.apply e s.observations;
  }

  abbrev pub applied : List (Event F) → Memory F → Memory F
  applied [] s = s
  applied (e ∷ es) s = applied es (apply_one e s)

module _ {F : Type 0} ⦃fl : FloatOps F⦄ where
  pub apply_all-applied :
      (es : List (Event F)) (s : Memory F) → apply_all packet_stages es s ≡ (ok tt, applied es s)
  unfolding apply_all apply_stages on_part apply_one Unique.stage Observations.stage
  apply_all-applied [] s = refl
  apply_all-applied (e ∷ es) s = apply_all-applied es (apply_one e s)

module _ {F : Type 0} where
  -- Between batches: the row of each hash is what the stored observations call for, and its entry
  -- in memory agrees; nothing waits in the buffer.
  pub record Good (d : Db F) (s : Memory F) : Type 0 where
    pub is_map : IsMap bytes_discrete s.unique
    pub row_ok : (h : Bytes) → h ≢ [] → RowOk h (row_of d h) (packets d)
    pub settled :
        (h : Bytes) → h ≢ [] → Settled h (lookup bytes_discrete h s.unique) (row_of d h) (packets d)
    pub buffered : s.observations.buf ≡ []

  pub record Applied (d : Db F) (s : Memory F) : Type 0 where
    pub is_map : IsMap bytes_discrete s.unique
    pub row_ok : (h : Bytes) → h ≢ [] → RowOk h (row_of d h) (packets d)
    pub at :
        (h : Bytes)
        → h ≢ []
        → At h (lookup bytes_discrete h s.unique) (row_of d h) (packets d) s.observations.buf

  apply_payload-Applied :
      (d : Db F) (e : Event F) (p : Payload F) (s : Memory F)
      → Applied d s
      → Applied d (record {
        unique = Unique.apply_payload e p s.unique;
        observations = Observations.apply_payload e p s.observations;
      })
  unfolding Unique.apply_payload Observations.apply_payload
  apply_payload-Applied d e (status _) s a = record {
    is_map = a.is_map;
    row_ok = a.row_ok;
    at = a.at;
  }
  apply_payload-Applied d e (packet p) s a = record {
    is_map = apply_packet-IsMap e p s.unique a.is_map;
    row_ok = a.row_ok;
    at = λ h ne.
        apply_packet-At h ne s.unique (row_of d h) (packets d) s.observations.buf e p
          (a.row_ok h ne) (a.at h ne);
  }

  apply_one-Applied :
      (d : Db F) (e : Event F) (s : Memory F) → Applied d s → Applied d (apply_one e s)
  unfolding apply_one Unique.apply Observations.apply
  apply_one-Applied d e s a = apply_payload-Applied d e e.payload s a

  pub applied-Applied :
      (d : Db F) (es : List (Event F)) (s : Memory F) → Applied d s → Applied d (applied es s)
  applied-Applied d [] s a = a
  applied-Applied d (e ∷ es) s a = applied-Applied d es (apply_one e s) (apply_one-Applied d e s a)

  pub Good-Applied : (d : Db F) (s : Memory F) → Good d s → Applied d s
  Good-Applied d s g = record {
    is_map = g.is_map;
    row_ok = g.row_ok;
    at = λ h ne.
        subst (At h (lookup bytes_discrete h s.unique) (row_of d h) (packets d)) (sym g.buffered) (
          Settled-At h (lookup bytes_discrete h s.unique) (row_of d h) (packets d)
            (g.settled h ne));
  }
