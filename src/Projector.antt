-- ===== src/Projector.antt =====
-- The projector: `catchUp` and `Reset` of internal/project/project.go. The log can grow and the
-- databases can refuse between the turns of the loop, so each turn has its `Turn`. The loop runs
-- on fuel, one unit for a turn.
pub mod Pending
pub mod Turns
pub mod Ends
pub mod Cursor
pub mod CaughtUp
pub mod Rebuild
use mathlib.Core.List.{lookup}
use mesh_bug.Prelude.{
  ℕ, zero, suc, ltb, Bool, true, false, Option, none, some, List, [], ◌∷◌, Bytes, length, foldl,
  if◌then◌else◌, bytes_discrete, text,
}
use mesh_bug.Prelude.Maps.{put}
use mesh_bug.Event.{Event}
use mesh_bug.Store.{Db, Result, ok, err, Stage}
use mesh_bug.Pipeline.{Faults, Outcome, process_batch, clear}
use mesh_bug.RawLog.{RawEvent, fetch_raw_events_after}

abbrev pub projector_name : Bytes
projector_name = text "default"

abbrev pub batch_size : ℕ
batch_size = 500

-- The raw events at one turn of the loop, whether the query for them fails, and what the server
-- refuses in the batch.
pub record Turn : Type 0 where
  pub rows : List RawEvent
  pub unreadable : Bool
  pub faults : Faults

-- `sent`: the notifications of the last batch.
pub record Projector (F S N : Type 0) : Type 0 where
  pub cursor : ℕ
  pub memory : S
  pub tables : Db F
  pub sent : List N

pub data Turned (A : Type 0) : Type 0 where
  stop : Result (Unit {0}) → A → Turned A
  again : A → Turned A

-- `highest = r.ID` in the loop over the fetched rows
unfoldable pub highest : ℕ → List RawEvent → ℕ
highest h rows = foldl (λ _ r. r.id) h rows

module _ {F : Type 0} (decode : RawEvent → Option (Event F)) where
  unfoldable pub decoded : List RawEvent → List (Event F)
  decoded [] = []
  decoded (r ∷ rs) = elim (decode r) [ none ↦ decoded rs | some e ↦ e ∷ decoded rs ]

  module _ {S N : Type 0} (sts : List (Stage (Event F) S (Db F) N)) where
    abbrev pub left_by : ℕ → Outcome F S N → Projector F S N
    left_by c o = record { cursor = c; memory = o.memory; tables = o.tables; sent = o.sent }

    -- after `ProcessBatch`, for `n` rows up to `c`
    abbrev pub after_batch :
        ℕ → ℕ → Projector F S N → Result (Unit {0}) → Outcome F S N → Turned (Projector F S N)
    after_batch n c p err o = stop err (left_by p.cursor o)
    after_batch n c p (ok _) o =
        if ltb n batch_size then stop (ok tt) (left_by c o) else again (left_by c o)

    abbrev pub turn_rows : List RawEvent → Faults → Projector F S N → Turned (Projector F S N)
    turn_rows [] faults p = stop (ok tt) p
    turn_rows (r ∷ rs) faults p =
        let h = highest 0 (r ∷ rs) in
        let o = process_batch sts (decoded (r ∷ rs)) projector_name h faults p.memory p.tables in
        after_batch (length (r ∷ rs)) h p o.result o

    -- One turn of the loop of `catchUp`.
    unfoldable pub turn : Turn → Projector F S N → Turned (Projector F S N)
    unfolding fetch_raw_events_after highest decoded process_batch
    turn w p =
        if w.unreadable
        then stop err p
        else turn_rows (fetch_raw_events_after p.cursor batch_size w.rows) w.faults p

    -- none: the fuel is used up
    unfoldable pub turns :
        ℕ → (ℕ → Turn) → Projector F S N → Option (Result (Unit {0}) × Projector F S N)
    unfolding turn
    turns zero w p = none
    turns (suc n) w p = elim (turn (w 0) p) [
      | stop r q ↦ some (r, q)
      | again q ↦ turns n (λ i. w (suc i)) q
    ]

    -- `unknown_target`: the query for the highest identifier fails
    unfoldable pub catch_up :
        ℕ → Bool → (ℕ → Turn) → Projector F S N → Option (Result (Unit {0}) × Projector F S N)
    unfolding turns
    catch_up fuel unknown_target w p = if unknown_target then some (err, p) else turns fuel w p

module _ {F S N : Type 0} where
  -- The start of `Run`: LoadProjectorCursor, which is an error when there is no row.
  unfoldable pub load_cursor : Projector F S N → Result (Unit {0}) × Projector F S N
  load_cursor p = elim (lookup bytes_discrete projector_name p.tables.projector_state) [
    | none ↦ (err, p)
    | some c ↦ (ok tt, record p { cursor = c })
  ]

-- ResetDerivedState, less the anomalies: the sequence of `packet_observations` is not restarted.
unfoldable pub reset_derived_state : {F : Type 0} → Bytes → Db F → Db F
reset_derived_state name d = record {
  observers = [];
  observer_status = [];
  nodes = [];
  packets_unique = [];
  rollup_observer_1m = [];
  rollup_observer_1h = [];
  rollup_neighbor_1m = [];
  packet_observations = [];
  next_observation_id = d.next_observation_id;
  projector_state = elim (lookup bytes_discrete name d.projector_state) [
    | none ↦ d.projector_state
    | some _ ↦ put bytes_discrete name 0 d.projector_state
  ];
}

module _ {F S N : Type 0} (sts : List (Stage (Event F) S (Db F) N)) where
  -- `Reset`; when the transaction fails nothing changes. The next `Run` loads the cursor.
  unfoldable pub reset : Bool → Projector F S N → Result (Unit {0}) × Projector F S N
  unfolding clear reset_derived_state
  reset refused p = if refused then (err, p) else (
    ok tt,
    record p { memory = clear sts p.memory; tables = reset_derived_state projector_name p.tables },
  )
