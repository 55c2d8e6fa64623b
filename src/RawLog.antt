-- ===== src/RawLog.antt =====
-- The log of raw events: the table `raw_events` and its queries in internal/store/queries.go. The
-- table is a list in the order of the identifiers, which the sequence gives in ascending order.
use mesh_bug.Prelude.{ℕ, suc, ◌+◌, ltb, List, [], ◌∷◌, ◌++◌, Bytes, take, select, foldl, max}
use mesh_bug.Event.{Time}

pub record RawEventInput : Type 0 where
  pub broker : Bytes
  pub topic : Bytes
  pub payload : Bytes
  pub received_at : Time

pub record RawEvent : Type 0 where
  pub id : ℕ
  pub received_at : Time
  pub broker : Bytes
  pub topic : Bytes
  pub payload : Bytes

-- `next`: the next value of raw_events_id_seq
pub record RawLog : Type 0 where
  pub rows : List RawEvent
  pub next : ℕ

abbrev pub row_of : ℕ → RawEventInput → RawEvent
row_of id m = record {
  id = id;
  received_at = m.received_at;
  broker = m.broker;
  topic = m.topic;
  payload = m.payload;
}

abbrev pub numbered : ℕ → List RawEventInput → List RawEvent
numbered id [] = []
numbered id (m ∷ ms) = row_of id m ∷ numbered (suc id) ms

abbrev pub count : List RawEventInput → ℕ
count [] = 0
count (m ∷ ms) = suc (count ms)

-- InsertRawEvents, when the server takes it
unfoldable pub insert_raw_events : List RawEventInput → RawLog → RawLog
insert_raw_events ms log = record {
  rows = log.rows ++ numbered log.next ms;
  next = log.next + count ms;
}

-- InsertRawEvents, when the server refuses the COPY: the identifiers are drawn outside a transaction,
-- so they are used up.
unfoldable pub draw_ids : List RawEventInput → RawLog → RawLog
draw_ids ms log = record log { next = log.next + count ms }

-- MaxRawEventID
unfoldable pub max_raw_event_id : RawLog → ℕ
max_raw_event_id log = foldl (λ m e. max m e.id) 0 log.rows

-- FetchRawEventsAfter: WHERE id > since ORDER BY id ASC LIMIT limit
unfoldable pub fetch_raw_events_after : ℕ → ℕ → List RawEvent → List RawEvent
unfolding select
fetch_raw_events_after since limit rows = take limit (select (λ e. ltb since e.id) rows)
