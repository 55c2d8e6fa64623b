-- ===== src/Stages/Anomalies/Keeps.antt =====
-- What every insertion of the stage keeps, the whole of its loop keeps.
use mesh_bug.Prelude.{
  ℕ, zero, suc, ◌+◌, ◌≤◌, ◌≡◌, refl, leb, Bool, true, false, Option, none, some, List, [], ◌∷◌,
  Bytes, arith,
}
use mesh_bug.Event.{Time}
use mesh_bug.Store.{Tx, Result, ok, err, Exec, ◌>>=◌, continue, answer, query}
use mesh_bug.Stages.Anomalies.{
  Tables, Finding, Detector, State, detection_cadence, emit, emit_all, emit_found, detect,
  run_detectors, run_minutes,
}

module _ {R : Type 0} where
  -- Whatever the server refuses, the action keeps `P` of the memory and the tables.
  abbrev pub Keeps : {A : Type 0} → (State → Tables R → Type 0) → Exec State (Tables R) A → Type 0
  Keeps P m = (s : State) (tx : Tx (Tables R)) → P s tx.db → P (m s tx).1 (m s tx).2.db

  pub Keeps-bind :
      {A B : Type 0} (P : State → Tables R → Type 0) (m : Exec State (Tables R) A)
      (f : A → Exec State (Tables R) B)
      → Keeps P m
      → ((a : A) → Keeps P (f a))
      → Keeps P (m >>= f)
  Keeps-bind {A} {B} P m f km kf s tx p = next (m s tx).0 (km s tx p)
    where
      next :
          (r : Result A)
          → P (m s tx).1 (m s tx).2.db
          → P (continue r f (m s tx).1 (m s tx).2).1 (continue r f (m s tx).1 (m s tx).2).2.db
      next (ok a) p = kf a (m s tx).1 (m s tx).2 p
      next err p = p

  -- A query that changes nothing.
  Keeps-query :
      {A : Type 0} (P : State → Tables R → Type 0) (q : Tables R → A)
      → Keeps P (query (λ d. (q d, d)))
  unfolding query
  Keeps-query {A} P q s tx p = answered tx.faults
    where
      answered :
          (fs : List Bool)
          → P (answer fs (q tx.db, tx.db) tx.db s).1 (answer fs (q tx.db, tx.db) tx.db s).2.db
      answered [] = p
      answered (true ∷ fs) = p
      answered (false ∷ fs) = p

module _ {R J : Type 0} (marshal : J → Option Bytes) (P : Time → State → Tables R → Type 0)
    (emit-Keeps : (t : Time) (kind : Bytes) (f : Finding J)
      → Keeps {R = R} (P t) (emit marshal t kind f)) where
  emit_all-Keeps :
      (t : Time) (kind : Bytes) (fs : List (Finding J))
      → Keeps {R = R} (P t) (emit_all marshal t kind fs)
  unfolding emit_all
  emit_all-Keeps t kind [] = λ s tx k. k
  emit_all-Keeps t kind (f ∷ fs) =
      Keeps-bind (P t) (emit marshal t kind f) _ (emit-Keeps t kind f)
        (λ _. emit_all-Keeps t kind fs)

  detect-Keeps : (t : Time) (det : Detector R J) → Keeps {R = R} (P t) (detect marshal t det)
  detect-Keeps t det =
      Keeps-bind (P t) (query (λ d. (det.run d.others t, d))) _
        (Keeps-query (P t) (λ d. det.run d.others t)) (λ o. found o)
    where
      found :
          (o : Option (List (Finding J))) → Keeps {R = R} (P t) (emit_found marshal t det.kind o)
      found none = λ s tx k. k
      found (some fs) = emit_all-Keeps t det.kind fs

  run_detectors-Keeps :
      (dets : List (Detector R J)) (t : Time) → Keeps {R = R} (P t) (run_detectors marshal dets t)
  unfolding run_detectors
  run_detectors-Keeps [] t = λ s tx k. k
  run_detectors-Keeps (det ∷ dets) t =
      Keeps-bind (P t) (detect marshal t det) _ (detect-Keeps t det)
        (λ _. run_detectors-Keeps dets t)

  module _ (P-mono : (t u : Time) (s : State) (d : Tables R) → t ≤ u → P t s d → P u s d) where
    -- `hi`: a bound on the minutes that the loop reaches
    pub run_minutes-Keeps :
        (dets : List (Detector R J)) (n : ℕ) (t m end hi : Time)
        → t ≤ m
        → end ≤ hi
        → t ≤ hi
        → (s : State) (tx : Tx (Tables R)) → P t s tx.db
        → P hi
            (run_minutes marshal dets n m end s tx).1
            (run_minutes marshal dets n m end s tx).2.db
    unfolding run_minutes
    run_minutes-Keeps dets zero t m end hi le lh th s tx k = P-mono t hi s tx.db th k
    run_minutes-Keeps dets (suc n) t m end hi le lh th s tx k =
        by_test (leb m end) refl
          (λ mh. run_minutes-Keeps dets n m (m + detection_cadence) end hi (omega arith) lh mh)
      where
        Rest : Type 0
        Rest =
            m ≤ hi
            → (s : State) (tx : Tx (Tables R)) → P m s tx.db
            → P hi (run_minutes marshal dets n (m + detection_cadence) end s tx).1
                (run_minutes marshal dets n (m + detection_cadence) end s tx).2.db

        body : Bool → Result (Unit {0}) × State × Tx (Tables R)
        body b = elim b as (λ _. Result (Unit {0}) × State × Tx (Tables R)) [
          | false ↦ (ok tt, s, tx)
          | true ↦
              continue (run_detectors marshal dets m s tx).0
                (λ _. run_minutes marshal dets n (m + detection_cadence) end)
                (run_detectors marshal dets m s tx).1 (run_detectors marshal dets m s tx).2
        ]

        after_minute :
            (r : Result (Unit {0})) (s' : State) (tx' : Tx (Tables R))
            → P m s' tx'.db
            → m ≤ hi
            → Rest
            → P hi
                (continue r (λ _. run_minutes marshal dets n (m + detection_cadence) end) s' tx').1
                (continue r
                  (λ _. run_minutes marshal dets n (m + detection_cadence) end)
                  s'
                  tx').2.db
        after_minute err s' tx' k' mh rest = P-mono m hi s' tx'.db mh k'
        after_minute (ok _) s' tx' k' mh rest = rest mh s' tx' k'

        by_test : (b : Bool) → leb m end ≡ b → Rest → P hi (body b).1 (body b).2.db
        by_test false e rest = P-mono t hi s tx.db th k
        by_test true e rest =
            let r = run_detectors marshal dets m s tx in
            after_minute r.0 r.1 r.2 (run_detectors-Keeps dets m s tx (P-mono t m s tx.db le k))
              (ground (arith, e, lh)) rest
