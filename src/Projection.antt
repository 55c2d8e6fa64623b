-- ===== src/Projection.antt =====
-- The projection of packets: the pipeline of internal/project/pipeline/pipeline.go run with the
-- two stages that write `packets_unique` and `packet_observations`, in the order in which
-- internal/project/project.go (`New`) lists them.
pub mod Applied
pub mod Committed
pub mod Batch
pub mod Runs
use mesh_bug.Prelude.{ℕ, false, List, [], ◌∷◌, ◌<◌, Bytes}
use mesh_bug.Event.{FloatOps, Event}
use mesh_bug.Store.{Db, Stage}
use mesh_bug.Notify.{Message}
use mesh_bug.Pipeline.{Part, on_part, Faults}
use mesh_bug.Stages.Unique
use mesh_bug.Stages.Observations

pub record Memory (F : Type 0) : Type 0 where
  pub unique : Unique.State
  pub observations : Observations.State F

-- The memory of a projector that was just made.
abbrev pub start : {F : Type 0} → Memory F
start = record { unique = []; observations = Observations.empty }

module _ {F : Type 0} where
  abbrev pub unique_part : Part (Memory F) Unique.State
  unique_part = record { get = λ s. s.unique; set = λ p s. record s { unique = p } }

  abbrev pub observations_part : Part (Memory F) (Observations.State F)
  observations_part = record {
    get = λ s. s.observations;
    set = λ p s. record s { observations = p };
  }

module _ {F : Type 0} ⦃fl : FloatOps F⦄ where
  abbrev pub packet_stages : List (Stage (Event F) (Memory F) (Db F) Message)
  packet_stages =
      on_part unique_part (Unique.stage Message) ∷ on_part observations_part Observations.stage ∷ []

module _ {F : Type 0} where
  -- Every event of a batch has a time.
  abbrev pub Dated : List (Event F) → Type 0
  Dated [] = Unit
  Dated (e ∷ es) = (0 < e.ts) × Dated es

abbrev pub no_faults : Faults
no_faults = record { begin = false; statements = []; commit = false }
