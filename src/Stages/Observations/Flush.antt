-- ===== src/Stages/Observations/Flush.antt =====
-- `Flush` of the stage when the server refuses nothing, and the identifiers that it hands out.
use mathlib.Core.List.{append-nil, map-append}
use mesh_bug.Prelude.{
  ℕ, ◌+◌, ◌≡◌, refl, ap, ◌∙◌, List, [], ◌∷◌, ◌++◌, map, length, is_nil, if◌then◌else◌, arith,
}
use mesh_bug.Event.{FloatOps}
use mesh_bug.Store.{Db, PacketRow, ok}
use mesh_bug.Stages.Observations.{State, columns_of, next_ids, with_ids, flush}

module _ {F : Type 0} where
  -- The packets of the stored observations.
  abbrev pub packets : Db F → List (PacketRow F)
  packets d = map (λ o. o.packet) d.packet_observations

  abbrev pub counted : State F → State F
  counted s = if is_nil s.buf then s else record s { count = length s.buf }

module _ {F : Type 0} ⦃fl : FloatOps F⦄ where
  abbrev pub stored : Db F → List (PacketRow F) → Db F
  stored d buf = record d {
    next_observation_id = d.next_observation_id + length buf;
    packet_observations =
        d.packet_observations ++ with_ids buf (next_ids (length buf) d.next_observation_id);
  }

  stored-nil : (d : Db F) → stored d [] ≡ d
  unfolding with_ids next_ids
  stored-nil d = λ i. record d {
    next_observation_id = plus_zero d.next_observation_id i;
    packet_observations = append-nil d.packet_observations i;
  }
    where
      plus_zero : (n : ℕ) → n + 0 ≡ n
      plus_zero n = ground arith

  flush_buf :
      (buf : List (PacketRow F)) (s : State F) (d : Db F)
      → s.buf ≡ buf
      → flush s (record { db = d; faults = [] })
        ≡ (ok tt, counted s, record { db = stored d s.buf; faults = [] })
  unfolding flush
  flush_buf [] s d e = rw (e, stored-nil d) refl
  flush_buf (x ∷ xs) s d e = rw e refl

  pub flush-stored :
      (s : State F) (d : Db F)
      → flush s (record { db = d; faults = [] })
        ≡ (ok tt, counted s, record { db = stored d s.buf; faults = [] })
  flush-stored s d = flush_buf s.buf s d refl

  map-with_ids :
      (buf : List (PacketRow F)) (n : ℕ)
      → map (λ o. o.packet) (with_ids buf (next_ids (length buf) n)) ≡ map columns_of buf
  unfolding with_ids next_ids
  map-with_ids [] n = refl
  map-with_ids (x ∷ xs) n = ap (λ r. columns_of x ∷ r) (map-with_ids xs (n + 1))

  -- The buffered packets are stored behind the others, in the order of the buffer.
  pub packets-stored :
      (d : Db F) (buf : List (PacketRow F))
      → packets (stored d buf) ≡ packets d ++ map columns_of buf
  packets-stored d buf =
      map-append (λ o. o.packet) d.packet_observations _
      ∙ ap (λ r. packets d ++ r) (map-with_ids buf d.next_observation_id)
