-- ===== src/Status/Examples.antt =====
-- The theorem on the stored texts at one of them.
use dbtx.Prelude.{String, ◌≡◌, ◌↔◌, some}
use dbtx.Error.{ok}
use dbtx.Status.PlanStatus
use dbtx.Status.PlanStatus.{PlanStatus}
use dbtx.Status.EnvironmentStatus
use dbtx.Status.EnvironmentStatus.{EnvironmentStatus}
use dbtx.Status.DraftStatus
use dbtx.Status.DraftStatus.{DraftStatus}
use dbtx.Status.PreparationStatus
use dbtx.Status.PreparationStatus.{PreparationStatus}
use dbtx.Status.LifecycleStatus
use dbtx.Status.LifecycleStatus.{LifecycleStatus}
use dbtx.Status.ExecutionMode
use dbtx.Status.ExecutionMode.{ExecutionMode}
use dbtx.Status.DisplayStatus
use dbtx.Status.DisplayStatus.{DisplayStatus}
use dbtx.Status.ReconcileReason
use dbtx.Status.ReconcileReason.{ReconcileReason}
use dbtx.Status.Codec.{statuses_codec}

abbrev stored : String
stored = "failed"

statuses_codec_example :
    ((a : PlanStatus) → (PlanStatus.parse stored ≡ some a) ↔ (stored ≡ PlanStatus.as_str a))
    × ((a : EnvironmentStatus)
        → (EnvironmentStatus.parse stored ≡ some a) ↔ (stored ≡ EnvironmentStatus.as_str a))
    × ((a : DraftStatus) → (DraftStatus.parse stored ≡ some a) ↔ (stored ≡ DraftStatus.as_str a))
    × ((a : PreparationStatus)
        → (PreparationStatus.parse stored ≡ some a) ↔ (stored ≡ PreparationStatus.as_str a))
    × ((a : LifecycleStatus)
        → (LifecycleStatus.from_db stored ≡ ok a) ↔ (stored ≡ LifecycleStatus.to_db a))
    × ((a : ExecutionMode)
        → (ExecutionMode.from_db stored ≡ ok a) ↔ (stored ≡ ExecutionMode.to_db a))
    × ((a : DisplayStatus)
        → (DisplayStatus.parse stored ≡ some a) ↔ (stored ≡ DisplayStatus.as_str a))
    × ((a : ReconcileReason)
        → (ReconcileReason.parse stored ≡ some a) ↔ (stored ≡ ReconcileReason.as_str a))
statuses_codec_example = statuses_codec stored
