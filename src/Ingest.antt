-- ===== src/Ingest.antt =====
-- The ingester: `Run` of internal/ingest/ingest.go. The loop is a run over what `select` yields:
-- a message, a tick of the timer, the close of the channel, or the end of the context. A call of
-- the database with an ended context fails (pgx), so the last flush of that branch draws no
-- identifiers.
pub mod Written
pub mod Ordered
use mesh_bug.Prelude.{ℕ, leb, List, [], ◌∷◌, ◌++◌, Bytes, map, length, if◌then◌else◌}
use mesh_bug.Event.{Time}
use mesh_bug.RawLog.{RawEventInput, RawLog, insert_raw_events, draw_ids}

-- mqtt.Message
pub record MqttMessage : Type 0 where
  pub broker : Bytes
  pub topic : Bytes
  pub payload : Bytes
  pub received_at : Time

abbrev pub ingest_batch : ℕ
ingest_batch = 500

-- What becomes of a flush at that time: its three calls succeed, the notification fails, the COPY
-- fails, or no identifiers are drawn.
pub data Write : Type 0 where
  written : Write
  unsent : Write
  uncopied : Write
  unnumbered : Write

pub data Input : Type 0 where
  message : MqttMessage → (w : Write) → Input
  tick : (w : Write) → Input

-- How `Run` returns.
pub data Ending : Type 0 where
  closed : (w : Write) → Ending
  canceled : Ending

-- `counts`: the notifications on meshbug_raw, newest first.
pub record Ingester : Type 0 where
  pub batch : List MqttMessage
  pub log : RawLog
  pub counts : List ℕ

abbrev pub input_of : MqttMessage → RawEventInput
input_of m = record {
  broker = m.broker;
  topic = m.topic;
  payload = m.payload;
  received_at = m.received_at;
}

abbrev pub flushed : Write → List MqttMessage → Ingester → Ingester
flushed w [] s = s
flushed unnumbered (m ∷ ms) s = record s { batch = [] }
flushed uncopied (m ∷ ms) s = record s { batch = []; log = draw_ids (map input_of (m ∷ ms)) s.log }
flushed unsent (m ∷ ms) s = record s {
  batch = [];
  log = insert_raw_events (map input_of (m ∷ ms)) s.log;
}
flushed written (m ∷ ms) s = record {
  batch = [];
  log = insert_raw_events (map input_of (m ∷ ms)) s.log;
  counts = length (m ∷ ms) ∷ s.counts;
}

unfoldable pub flush : Write → Ingester → Ingester
unfolding insert_raw_events draw_ids
flush w s = flushed w s.batch s

unfoldable pub step : Input → Ingester → Ingester
unfolding flush
step (message m w) s =
    let t : Ingester = record s { batch = s.batch ++ m ∷ [] } in
    if leb ingest_batch (length t.batch) then flush w t else t
step (tick w) s = flush w s

unfoldable pub finish : Ending → Ingester → Ingester
unfolding flush
finish (closed w) s = flush w s
finish canceled s = flush unnumbered s

unfoldable pub run : List Input → Ending → Ingester → Ingester
unfolding step finish
run [] e s = finish e s
run (i ∷ is) e s = run is e (step i s)
