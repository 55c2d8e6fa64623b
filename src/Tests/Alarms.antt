-- ===== src/Tests/Alarms.antt =====
-- A detector that always finds the same condition, over three batches.
use mesh_bug.Prelude.{
  ℕ, ◌+◌, ◌*◌, ◌≡◌, refl, Bool, true, false, Option, some, List, [], ◌∷◌, Bytes, text, arith, map,
}
use mesh_bug.Event.{Event, Time, minute}
use mesh_bug.Store.{Tx, ◌>>◌, modify}
use mesh_bug.Stages.Anomalies.{Tables, Detector, State, empty, detection_cadence, set_cursor, flush}
use mesh_bug.Stages.Anomalies.Emitted.{Grown, flush-Grown}
use mesh_bug.Stages.Anomalies.Minutes.{at_minutes, flush-at_minutes}
use mesh_bug.Stages.Anomalies.Spaced.{Sound}
use mesh_bug.Stages.Anomalies.Rounds.{Round, rounds, rounds-Sound}
use mesh_bug.Tests.Replay.{event_at}

abbrev marshal : Bytes → Option Bytes
marshal s = some s

abbrev always : Detector Bool Bytes
always = record {
  kind = text "observer_silent";
  run = λ r t.
      some
        (record { subject_id = some (7 ∷ []); severity = text "crit"; details = text "{}" } ∷ []);
}

abbrev no_anomalies : Tables Bool
no_anomalies = record { others = true; anomalies = []; next_id = 1 }

abbrev heard : Time → Event ℕ
heard t = record (event_at 1) { ts = t }

abbrev batch : Time → Bool → Round ℕ Bool
batch t refused = record { events = heard t ∷ []; others = true; faults = []; refused = refused }

abbrev three_batches : List (Round ℕ Bool)
three_batches =
    batch (10 * minute + 5) false ∷ batch (12 * minute) true ∷ batch (28 * minute) false ∷ []

new-Sound : Sound empty no_anomalies
new-Sound = record { spaced = tt; up_to = tt; behind = omega arith }

rounds-Sound_example :
    Sound
      (rounds marshal (always ∷ []) three_batches (empty, no_anomalies)).0
      (rounds marshal (always ∷ []) three_batches (empty, no_anomalies)).1
rounds-Sound_example = rounds-Sound marshal (always ∷ []) three_batches empty no_anomalies new-Sound

-- The minutes of the batch that was rolled back are not looked at again.
skipped :
    map (λ r. r.ts) (rounds marshal (always ∷ []) three_batches (empty, no_anomalies)).1.anomalies
    ≡ 13 * minute ∷ []
unfolding rounds
skipped = refl

abbrev at_ten : State
at_ten = record { cursor = 10 * minute; hwm = 12 * minute + 3; emitted = [] }

abbrev tx : Tx (Tables Bool)
tx = record { db = no_anomalies; faults = false ∷ false ∷ true ∷ [] }

flush-Grown_example :
    let (_, s', tx') = flush marshal (always ∷ []) at_ten tx in Grown at_ten tx.db s' tx'.db
flush-Grown_example = flush-Grown marshal (always ∷ []) at_ten tx

flush-at_minutes_example :
    flush marshal (always ∷ []) at_ten tx
    ≡ (do
      at_minutes marshal (always ∷ []) 2 (10 * minute + detection_cadence)
      modify (set_cursor (12 * minute)))
        at_ten tx
flush-at_minutes_example =
    flush-at_minutes marshal (always ∷ []) 2 at_ten tx (λ e. omega (arith, e)) refl
