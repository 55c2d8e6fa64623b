-- ===== src/Stages/Observations/Ids.antt =====
-- The identifiers of the stored observations.
use mesh_bug.Prelude.{ℕ, ◌+◌, ◌<◌, ◌≤◌, Bool, true, false, List, [], ◌∷◌, ◌++◌, length, arith}
use mesh_bug.Event.{FloatOps}
use mesh_bug.Store.{Db, PacketRow, ObservationRow}
use mesh_bug.Stages.Observations.{State, next_ids, with_ids, flush}

module _ {F : Type 0} where
  -- Every identifier is smaller than the next, and the last is smaller than `next`.
  abbrev pub Ascending : List (ObservationRow F) → ℕ → Type 0
  Ascending [] next = Unit
  Ascending (o ∷ []) next = o.observation_id < next
  Ascending (o ∷ p ∷ os) next = (o.observation_id < p.observation_id) × Ascending (p ∷ os) next

  relax : (os : List (ObservationRow F)) (n m : ℕ) → n ≤ m → Ascending os n → Ascending os m
  relax [] n m l a = tt
  relax (o ∷ []) n m l a = ground (arith, a, l)
  relax (o ∷ p ∷ os) n m l a = (a.0, relax (p ∷ os) n m l a.1)

module _ {F : Type 0} ⦃fl : FloatOps F⦄ where
  new-Ascending :
      (buf : List (PacketRow F)) (n : ℕ)
      → Ascending (with_ids buf (next_ids (length buf) n)) (n + length buf)
  unfolding with_ids next_ids
  new-Ascending [] n = tt
  new-Ascending (x ∷ []) n = ground arith
  new-Ascending (x ∷ y ∷ ys) n = (
    ground arith,
    relax (with_ids (y ∷ ys) (next_ids (length (y ∷ ys)) (n + 1))) (n + 1 + length (y ∷ ys))
        (n + length (x ∷ y ∷ ys)) (ground arith) (new-Ascending (y ∷ ys) (n + 1)),
  )

  joined :
      (os : List (ObservationRow F)) (n : ℕ) (buf : List (PacketRow F))
      → Ascending os n
      → Ascending (os ++ with_ids buf (next_ids (length buf) n)) (n + length buf)
  unfolding with_ids next_ids
  joined [] n buf a = new-Ascending buf n
  joined (o ∷ []) n [] a = ground (arith, a)
  joined (o ∷ []) n (x ∷ xs) a = (a, new-Ascending (x ∷ xs) n)
  joined (o ∷ p ∷ os) n buf a = (a.0, joined (p ∷ os) n buf a.1)

  -- When the identifiers of the stored observations ascend strictly and stay below the next one,
  -- they still do after a flush, whatever the server refuses of it.
  pub flush-Ascending :
      (s : State F) (d : Db F) (faults : List Bool)
      → Ascending d.packet_observations d.next_observation_id
      → let d' = (flush s (record { db = d; faults = faults })).2.db in
        Ascending d'.packet_observations d'.next_observation_id
  unfolding flush
  flush-Ascending s d faults a = by_buf s.buf faults
    where
      by_buf :
          (buf : List (PacketRow F)) (faults : List Bool)
          → let d' = (flush (record s { buf = buf }) (record { db = d; faults = faults })).2.db in
            Ascending d'.packet_observations d'.next_observation_id
      by_buf [] faults = a
      by_buf (x ∷ xs) [] = joined d.packet_observations d.next_observation_id (x ∷ xs) a
      by_buf (x ∷ xs) (true ∷ fs) = a
      by_buf (x ∷ xs) (false ∷ []) = joined d.packet_observations d.next_observation_id (x ∷ xs) a
      by_buf (x ∷ xs) (false ∷ true ∷ fs) =
          relax d.packet_observations d.next_observation_id
            (d.next_observation_id + length (x ∷ xs)) (ground arith) a
      by_buf (x ∷ xs) (false ∷ false ∷ fs) =
          joined d.packet_observations d.next_observation_id (x ∷ xs) a
