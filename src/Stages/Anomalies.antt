-- ===== src/Stages/Anomalies.antt =====
-- The stage of the table `anomalies`: internal/project/stages/anomalies.go. The other tables are
-- `R`, which the detectors read; `details` are of a type `J` that json.Marshal may refuse.
pub mod Keeps
pub mod Emitted
pub mod Minutes
pub mod Spaced
pub mod Rounds
use mesh_bug.Prelude.{
  ℕ, zero, suc, ◌+◌, ◌*◌, leb, ltb, ◌==◌, Bool, true, false, ◌&&◌, Option, none, some, List, [],
  ◌∷◌, ◌++◌, Bytes, Slice, map, if◌then◌else◌, ite, bytes_discrete, text,
}
use mesh_bug.Event.{Event, Time, after, is_zero, truncate, minute}
use mesh_bug.Store.{Result, ok, err, Exec, ◌>>=◌, ◌>>◌, pure, query, reads, modify, Stage}
use mesh_bug.Notify.{Message, anomaly}

abbrev pub detection_cadence : ℕ
detection_cadence = minute

abbrev pub dedup_window : ℕ
dedup_window = 15 * minute

pub record AnomalyRow : Type 0 where
  pub id : ℕ
  pub ts : Time
  pub kind : Bytes
  pub subject_id : Slice
  pub severity : Bytes
  pub details : Bytes
  pub resolved_at : Option Time

pub record Tables (R : Type 0) : Type 0 where
  pub others : R
  pub anomalies : List AnomalyRow
  pub next_id : ℕ

pub record Finding (J : Type 0) : Type 0 where
  pub subject_id : Slice
  pub severity : Bytes
  pub details : J

-- `run` is none when the detector fails.
pub record Detector (R J : Type 0) : Type 0 where
  pub kind : Bytes
  pub run : R → Time → Option (List (Finding J))

pub record EmittedAnomaly : Type 0 where
  pub id : ℕ
  pub kind : Bytes
  pub severity : Bytes

pub record State : Type 0 where
  pub cursor : Time
  pub hwm : Time
  pub emitted : List EmittedAnomaly

abbrev pub empty : State
empty = record { cursor = 0; hwm = 0; emitted = [] }

unfoldable pub apply : {F : Type 0} → Event F → State → Result (Unit {0}) × State
apply e s = (ok tt, if after e.ts s.hwm then record s { hwm = e.ts } else s)

-- subject_id IS NOT DISTINCT FROM $3
abbrev pub same_subject : Slice → Slice → Bool
same_subject none none = true
same_subject (some a) (some b) = ite (bytes_discrete a b) true false
same_subject none (some b) = false
same_subject (some a) none = false

abbrev pub unresolved : Option Time → Bool
unresolved none = true
unresolved (some t) = false

abbrev pub same_kind : Bytes → Bytes → Bool
same_kind a b = ite (bytes_discrete a b) true false

-- the row that keeps a finding of minute `t` out of the table
unfoldable pub suppresses : Time → Bytes → Slice → AnomalyRow → Bool
unfolding bytes_discrete
suppresses t kind subject r =
    same_kind r.kind kind
    && same_subject r.subject_id subject
    && leb t (r.ts + dedup_window)
    && ltb r.ts t
    && unresolved r.resolved_at

unfoldable pub exists : (AnomalyRow → Bool) → List AnomalyRow → Bool
exists p [] = false
exists p (r ∷ rs) = elim (p r) [ true ↦ true | false ↦ exists p rs ]

abbrev pub set_cursor : Time → State → State
set_cursor t s = record s { cursor = t }

-- return err
abbrev pub fail : {R : Type 0} → Exec State (Tables R) (Unit {0})
fail s tx = (err, s, tx)

module _ {J : Type 0} where
  abbrev pub new_row : ℕ → Time → Bytes → Finding J → Bytes → AnomalyRow
  new_row id t kind f details = record {
    id = id;
    ts = t;
    kind = kind;
    subject_id = f.subject_id;
    severity = f.severity;
    details = details;
    resolved_at = none;
  }

  abbrev pub remember : Bytes → Finding J → Option ℕ → State → State
  remember kind f none s = s
  remember kind f (some id) s = record s {
    emitted = s.emitted ++ record { id = id; kind = kind; severity = f.severity } ∷ [];
  }

module _ {R J : Type 0} (marshal : J → Option Bytes) where
  -- INSERT … WHERE NOT EXISTS … RETURNING id: none for pgx.ErrNoRows
  unfoldable pub insert : Time → Bytes → Finding J → Bytes → Tables R → Option ℕ × Tables R
  unfolding exists suppresses
  insert t kind f details d =
      if exists (suppresses t kind f.subject_id) d.anomalies then (none, d) else (
        some d.next_id,
        record d {
          anomalies = d.anomalies ++ new_row d.next_id t kind f details ∷ [];
          next_id = d.next_id + 1;
        },
      )

  abbrev pub stored : Time → Bytes → Finding J → Option Bytes → Exec State (Tables R) (Unit {0})
  stored t kind f none = fail
  stored t kind f (some details) = do
    id ← query (insert t kind f details)
    modify (remember kind f id)

  unfoldable pub emit : Time → Bytes → Finding J → Exec State (Tables R) (Unit {0})
  unfolding query insert modify
  emit t kind f = stored t kind f (marshal f.details)

  unfoldable pub emit_all : Time → Bytes → List (Finding J) → Exec State (Tables R) (Unit {0})
  unfolding emit
  emit_all t kind [] = pure tt
  emit_all t kind (f ∷ fs) = do emit t kind f; emit_all t kind fs

  abbrev pub emit_found :
      Time → Bytes → Option (List (Finding J)) → Exec State (Tables R) (Unit {0})
  emit_found t kind none = fail
  emit_found t kind (some fs) = emit_all t kind fs

  -- the detector's statement, which the server may refuse, and its findings
  abbrev pub detect : Time → Detector R J → Exec State (Tables R) (Unit {0})
  detect t det = do found ← query (λ d. (det.run d.others t, d)); emit_found t det.kind found

  unfoldable pub run_detectors : List (Detector R J) → Time → Exec State (Tables R) (Unit {0})
  unfolding emit_all query
  run_detectors [] t = pure tt
  run_detectors (det ∷ dets) t = do detect t det; run_detectors dets t

  -- `for m := …; !m.After(end); m = m.Add(detectionCadence)`, on fuel
  unfoldable pub run_minutes :
      List (Detector R J) → ℕ → Time → Time → Exec State (Tables R) (Unit {0})
  unfolding run_detectors
  run_minutes dets zero m end s tx = (ok tt, s, tx)
  run_minutes dets (suc n) m end s tx = elim (leb m end) [
    | false ↦ (ok tt, s, tx)
    | true ↦ (do run_detectors dets m; run_minutes dets n (m + detection_cadence) end) s tx
  ]

  unfoldable pub flush : List (Detector R J) → Exec State (Tables R) (Unit {0})
  unfolding run_minutes modify
  flush dets s tx =
      let end = truncate s.hwm detection_cadence in
      if is_zero s.hwm
      then (ok tt, s, tx)
      else if is_zero s.cursor
      then (ok tt, set_cursor end s, tx)
      else (do
        run_minutes dets (end + 1) (s.cursor + detection_cadence) end
        modify (set_cursor end))
          s tx

-- `Notify`: the errors of Publish are dropped
abbrev pub message_of : EmittedAnomaly → Message
message_of a = anomaly a.id a.kind a.severity

unfoldable pub notify : State → List Message × State
notify s = (map message_of s.emitted, record s { emitted = [] })

unfoldable pub evict : ℕ → State → State
evict hwm s = s

module _ {F R J : Type 0} (marshal : J → Option Bytes) (dets : List (Detector R J)) where
  unfoldable pub stage : Stage (Event F) State (Tables R) Message
  unfolding apply flush notify evict
  stage = record {
    name = text "anomalies";
    apply = apply;
    flush = flush marshal dets;
    notify = notify;
    evict = evict;
    clear = λ s. empty;
  }
