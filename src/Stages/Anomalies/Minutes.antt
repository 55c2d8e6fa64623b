-- ===== src/Stages/Anomalies/Minutes.antt =====
-- The minutes at which a flush runs the detectors.
use mesh_bug.Prelude.{
  ℕ, zero, suc, ◌+◌, ◌*◌, ◌≤◌, ◌≡◌, ◌≢◌, refl, ap, ◌∙◌, leb, Bool, true, false, Option, List, Bytes,
  if◌then◌else◌, arith,
}
use mesh_bug.Event.{Time, is_zero, truncate}
use mesh_bug.Store.{Tx, Result, ok, err, Exec, ◌>>◌, pure, continue, modify}
use mesh_bug.Stages.Anomalies.{
  Tables, Detector, State, detection_cadence, run_detectors, run_minutes, set_cursor, flush,
}

module _ {R J : Type 0} (marshal : J → Option Bytes) (dets : List (Detector R J)) where
  -- The detectors at `k` minutes, one after the other, from `m`; an error ends it.
  unfoldable pub at_minutes : ℕ → Time → Exec State (Tables R) (Unit {0})
  at_minutes zero m = pure tt
  at_minutes (suc k) m = do run_detectors marshal dets m; at_minutes k (m + detection_cadence)

  continue-cong :
      (r : Result (Unit {0})) (f g : Unit {0} → Exec State (Tables R) (Unit {0})) (s : State)
      (tx : Tx (Tables R))
      → ((s : State) (tx : Tx (Tables R)) → f tt s tx ≡ g tt s tx)
      → continue r f s tx ≡ continue r g s tx
  continue-cong (ok _) f g s tx h = h s tx
  continue-cong err f g s tx h = refl

  one_minute :
      (n : ℕ) (m end : Time) (s : State) (tx : Tx (Tables R))
      → leb m end ≡ true
      → run_minutes marshal dets (suc n) m end s tx
        ≡ (do run_detectors marshal dets m; run_minutes marshal dets n (m + detection_cadence) end)
            s tx
  unfolding run_minutes
  one_minute n m end s tx h =
      ap
        (λ b. elim b as (λ _. Result (Unit {0}) × State × Tx (Tables R)) [
          | false ↦ (ok tt, s, tx)
          | true ↦
              (do
                run_detectors marshal dets m
                run_minutes marshal dets n (m + detection_cadence) end)
                s tx
        ])
        h

  no_minute :
      (n : ℕ) (m end : Time) (s : State) (tx : Tx (Tables R))
      → leb m end ≡ false
      → run_minutes marshal dets n m end s tx ≡ (ok tt, s, tx)
  unfolding run_minutes
  no_minute zero m end s tx h = refl
  no_minute (suc n) m end s tx h =
      ap
        (λ b. elim b as (λ _. Result (Unit {0}) × State × Tx (Tables R)) [
          | false ↦ (ok tt, s, tx)
          | true ↦
              (do
                run_detectors marshal dets m
                run_minutes marshal dets n (m + detection_cadence) end)
                s tx
        ])
        h

  run_minutes-at_minutes :
      (k n : ℕ) (c end : Time)
      → k ≤ n
      → end ≡ c + k * detection_cadence
      → (s : State) (tx : Tx (Tables R))
      → run_minutes marshal dets n (c + detection_cadence) end s tx
        ≡ at_minutes k (c + detection_cadence) s tx
  unfolding at_minutes
  run_minutes-at_minutes zero n c end le e s tx =
      no_minute n (c + detection_cadence) end s tx (ground (arith, e))
  run_minutes-at_minutes (suc k) zero c end le e s tx = absurd (omega (arith, le))
  run_minutes-at_minutes (suc k) (suc n) c end le e s tx =
      one_minute n (c + detection_cadence) end s tx (ground (arith, e))
      ∙ continue-cong (run_detectors marshal dets (c + detection_cadence) s tx).0 _ _ _ _ (λ s tx.
        run_minutes-at_minutes k n (c + detection_cadence) end (omega (arith, le))
          (omega (arith, e)) s tx)

  -- With a cursor that is not zero and `k` whole minutes from it to the minute of the high-water
  -- mark, a flush runs the detectors at exactly the next `k` minutes, each once and in order, and,
  -- unless one of them fails, moves the cursor to the last: the loop's fuel is enough.
  pub flush-at_minutes :
      (k : ℕ) (s : State) (tx : Tx (Tables R))
      → s.cursor ≢ 0
      → truncate s.hwm detection_cadence ≡ s.cursor + k * detection_cadence
      → flush marshal dets s tx
        ≡ (do
          at_minutes k (s.cursor + detection_cadence)
          modify (set_cursor (truncate s.hwm detection_cadence)))
            s tx
  unfolding flush
  flush-at_minutes k s tx n e =
      let end = truncate s.hwm detection_cadence in
      let loop = run_minutes-at_minutes k (end + 1) s.cursor end (omega (arith, e)) e s tx in
      started (is_zero s.hwm) (is_zero s.cursor) (ground (arith, e, n)) (ground (arith, n))
      ∙ ap
          (λ (w : Result (Unit {0}) × State × Tx (Tables R)).
            continue w.0 (λ _. modify (set_cursor end)) w.1 w.2)
          loop
    where
      last : Time
      last = truncate s.hwm detection_cadence

      later : Result (Unit {0}) × State × Tx (Tables R)
      later =
          (do
            run_minutes marshal dets (last + 1) (s.cursor + detection_cadence) last
            modify (set_cursor last))
            s tx

      started :
          (a b : Bool)
          → a ≡ false
          → b ≡ false
          → (if a then (ok tt, s, tx) else if b then (ok tt, set_cursor last s, tx) else later)
            ≡ later
      started a b p q = ground (arith, p, q)
