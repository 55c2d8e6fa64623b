-- ===== src/Stages/Anomalies/Rounds.antt =====
-- Batch after batch, whatever the server refuses.
use mesh_bug.Prelude.{◌≤◌, Bool, true, false, Option, List, [], ◌∷◌, Bytes, arith}
use mesh_bug.Event.{Event}
use mesh_bug.Store.{Tx, Result, ok, err}
use mesh_bug.Stages.Anomalies.Spaced.{UpTo-mono, seen, Sound, Flushed, flush-Flushed}
use mesh_bug.Stages.Anomalies.{Tables, Detector, State, apply, flush, notify}

-- A batch: its events, what the detectors read when it is flushed, the statements that the server
-- refuses, and whether it refuses the commit.
pub record Round (F R : Type 0) : Type 0 where
  pub events : List (Event F)
  pub others : R
  pub faults : List Bool
  pub refused : Bool

abbrev pub apply_all : {F : Type 0} → List (Event F) → State → State
apply_all [] s = s
apply_all (e ∷ es) s = apply_all es (apply e s).1

module _ {R : Type 0} where
  -- The end of the batch: a commit keeps the transaction's rows and sends the notifications.
  abbrev pub settled :
      Bool → Tables R → Result (Unit {0}) × State × Tx (Tables R) → State × Tables R
  settled refused d (err, s, tx) = (s, d)
  settled true d (ok _, s, tx) = (s, d)
  settled false d (ok _, s, tx) = ((notify s).1, tx.db)

module _ {F R : Type 0} where
  apply-Sound : (e : Event F) (s : State) (d : Tables R) → Sound s d → Sound (apply e s).1 d
  unfolding apply
  apply-Sound e s d o =
      let later : seen s ≤ seen (apply e s).1 = ground (arith, o.behind) in
      record {
        spaced = o.spaced;
        up_to = UpTo-mono (seen s) (seen (apply e s).1) d.anomalies later o.up_to;
        behind = ground (arith, o.behind);
      }

  apply_all-Sound :
      (es : List (Event F)) (s : State) (d : Tables R) → Sound s d → Sound (apply_all es s) d
  apply_all-Sound [] s d o = o
  apply_all-Sound (e ∷ es) s d o = apply_all-Sound es (apply e s).1 d (apply-Sound e s d o)

module _ {R J : Type 0} (marshal : J → Option Bytes) (dets : List (Detector R J)) where
  settled-Sound :
      (s : State) (refused : Bool) (d : Tables R) (w : Result (Unit {0}) × State × Tx (Tables R))
      → Flushed marshal dets s d w
      → Sound (settled refused d w).0 (settled refused d w).1
  unfolding notify
  settled-Sound s refused d (err, s', tx) o = o
  settled-Sound s true d (ok _, s', tx) o = o.1
  settled-Sound s false d (ok _, s', tx) o = record {
    spaced = o.0.spaced;
    up_to = o.0.up_to;
    behind = o.0.behind;
  }

module _ {F R J : Type 0} (marshal : J → Option Bytes) (dets : List (Detector R J)) where
  unfoldable pub round : Round F R → State × Tables R → State × Tables R
  unfolding apply flush notify
  round b (s, d) =
      let d' : Tables R = record d { others = b.others } in
      settled b.refused d'
        (flush marshal dets (apply_all b.events s) (record { db = d'; faults = b.faults }))

  unfoldable pub rounds : List (Round F R) → State × Tables R → State × Tables R
  unfolding round
  rounds [] w = w
  rounds (b ∷ bs) w = rounds bs (round b w)

  round-Sound :
      (b : Round F R) (s : State) (d : Tables R)
      → Sound s d
      → Sound (round b (s, d)).0 (round b (s, d)).1
  unfolding round
  round-Sound b s d o =
      let d' : Tables R = record d { others = b.others } in
      let o' =
        apply_all-Sound b.events s d'
          (record { spaced = o.spaced; up_to = o.up_to; behind = o.behind }) in
      settled-Sound marshal dets (apply_all b.events s) b.refused d' _
        (flush-Flushed marshal dets (apply_all b.events s) d' b.faults o')

  -- When the table is spaced, no row is later than the last minute that was looked at and that
  -- minute is not past the high-water mark, so it is after any batches without a restart, whatever
  -- the events, the findings of the detectors and the refusals of the server. Spaced: of two rows of
  -- one kind and subject, the earlier unresolved, either both are of one minute or the second is
  -- more than 15 minutes after the first.
  pub rounds-Sound :
      (bs : List (Round F R)) (s : State) (d : Tables R)
      → Sound s d
      → Sound (rounds bs (s, d)).0 (rounds bs (s, d)).1
  unfolding rounds
  rounds-Sound [] s d o = o
  rounds-Sound (b ∷ bs) s d o =
      let w = round b (s, d) in rounds-Sound bs w.0 w.1 (round-Sound b s d o)
