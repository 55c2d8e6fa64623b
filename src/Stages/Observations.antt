-- ===== src/Stages/Observations.antt =====
-- The stage that owns `packet_observations`: internal/project/stages/packets.go.
pub mod Flush
pub mod Ids
use mesh_bug.Prelude.{
  ℕ, zero, suc, ◌+◌, ◌==◌, Bool, Option, none, some, List, [], ◌∷◌, ◌++◌, map, Bytes, Slice,
  if◌then◌else◌, length, is_nil, text, bytes_discrete,
}
use mesh_bug.Prelude.Sets.{add}
use mathlib.Core.Option
use mesh_bug.Event.{FloatOps, Event, PacketPayload, Payload, packet, status}
use mesh_bug.Store.{
  Db, PacketRow, ObservationRow, Result, ok, Exec, ◌>>=◌, ◌>>◌, pure, query, exec, modify, reads,
  Stage,
}
use mesh_bug.Notify
use mesh_bug.Notify.{Message, hex_encode}

-- PacketObservations
pub record State (F : Type 0) : Type 0 where
  pub buf : List (PacketRow F)
  pub touched : List Bytes
  pub count : ℕ

abbrev pub empty : {F : Type 0} → State F
empty = record { buf = []; touched = []; count = 0 }

-- nextval('packet_observations_id_seq'), n times
unfoldable pub next_ids : ℕ → ℕ → List ℕ
next_ids zero next = []
next_ids (suc n) next = next ∷ next_ids n (next + 1)

module _ {F : Type 0} where
  unfoldable pub packet_row : Event F → PacketPayload F → PacketRow F
  packet_row e p = record {
    ts = e.ts;
    observer_id = e.observer_id;
    packet_hash = p.packet_hash;
    direction = p.direction;
    packet_type = p.packet_type;
    route = p.route;
    len = p.len;
    payload_len = p.payload_len;
    rssi = p.rssi;
    snr = p.snr;
    score = p.score;
    duration_ms = p.duration_ms;
    raw = p.raw;
    decoded_type = p.decoded_type;
    source_prefix = p.source_prefix;
    dest_prefix = p.dest_prefix;
    transport_codes = p.transport_codes;
  }

  unfoldable pub apply_payload : Event F → Payload F → State F → State F
  unfolding packet_row
  apply_payload e (status _) s = s
  apply_payload e (packet p) s = record s {
    buf = s.buf ++ packet_row e p ∷ [];
    touched = add bytes_discrete e.observer_id s.touched;
  }

  unfoldable pub apply : Event F → State F → State F
  unfolding apply_payload
  apply e s = apply_payload e e.payload s

module _ {F : Type 0} ⦃fl : FloatOps F⦄ where
  -- The columns that a row gets: snr is numeric(6,2).
  abbrev pub columns_of : PacketRow F → PacketRow F
  columns_of r = record r { snr = Option.map fl.to_numeric r.snr }

  -- the rows that CopyFrom writes: buf[i] with ids[i]
  unfoldable pub with_ids : List (PacketRow F) → List ℕ → List (ObservationRow F)
  with_ids [] ids = []
  with_ids (r ∷ rs) [] = []
  with_ids (r ∷ rs) (i ∷ ids) =
      record { observation_id = i; packet = columns_of r } ∷ with_ids rs ids

  unfoldable pub flush : Exec (State F) (Db F) (Unit {0})
  unfolding next_ids with_ids query exec modify reads
  flush = do
    buf ← reads (λ s. s.buf)
    if is_nil buf then pure tt else do
      ids ← query (λ d. (
        next_ids (length buf) d.next_observation_id,
        record d { next_observation_id = d.next_observation_id + length buf },
      ))
      exec (λ d. record d { packet_observations = d.packet_observations ++ with_ids buf ids })
      modify (λ s. record s { count = length buf })

module _ {F : Type 0} where
  unfoldable pub notify : State F → List Message × State F
  notify s =
      if s.count == 0 then ([], s) else (Message.packets s.count (map hex_encode s.touched) ∷ [], s)

  unfoldable pub evict : ℕ → State F → State F
  evict hwm s = empty

module _ {F : Type 0} ⦃fl : FloatOps F⦄ where
  unfoldable pub stage : Stage (Event F) (State F) (Db F) Message
  unfolding apply flush notify evict
  stage = record {
    name = text "packet_observations";
    apply = λ e s. (ok tt, apply e s);
    flush = flush;
    notify = notify;
    evict = evict;
    clear = λ s. empty;
  }
