-- ===== src/Status/Codec.antt =====
-- The stored text of a status and its constructor determine each other.
use dbtx.Prelude.{String, ◌≡◌, ◌↔◌, refl, some, arith, eq_iff}
use dbtx.Error.{ok}
use dbtx.Status.PlanStatus
use dbtx.Status.PlanStatus.{PlanStatus}
use dbtx.Status.EnvironmentStatus
use dbtx.Status.EnvironmentStatus.{EnvironmentStatus}
use dbtx.Status.DraftStatus
use dbtx.Status.DraftStatus.{DraftStatus}
use dbtx.Status.PreparationStatus
use dbtx.Status.PreparationStatus.{PreparationStatus}
use dbtx.Status.LifecycleStatus
use dbtx.Status.LifecycleStatus.{LifecycleStatus}
use dbtx.Status.ExecutionMode
use dbtx.Status.ExecutionMode.{ExecutionMode}
use dbtx.Status.DisplayStatus
use dbtx.Status.DisplayStatus.{DisplayStatus}
use dbtx.Status.ReconcileReason
use dbtx.Status.ReconcileReason.{ReconcileReason}

PlanStatus-print : (a : PlanStatus) → PlanStatus.parse (PlanStatus.as_str a) ≡ some a
unfolding PlanStatus.parse
PlanStatus-print PlanStatus.planned = refl
PlanStatus-print PlanStatus.blocked = refl
PlanStatus-print PlanStatus.admitted = refl
PlanStatus-print PlanStatus.completed = refl
PlanStatus-print PlanStatus.failed = refl
PlanStatus-print PlanStatus.canceled = refl
PlanStatus-print PlanStatus.superseded = refl

PlanStatus-codec :
    (s : String) (a : PlanStatus) → (PlanStatus.parse s ≡ some a) ↔ (s ≡ PlanStatus.as_str a)
unfolding PlanStatus.parse
PlanStatus-codec s a = (
  λ h. ground (
    arith,
    eq_iff s "planned",
    eq_iff s "blocked",
    eq_iff s "admitted",
    eq_iff s "completed",
    eq_iff s "failed",
    eq_iff s "canceled",
    eq_iff s "superseded",
  ),
  λ e. rw e (PlanStatus-print a),
)

EnvironmentStatus-print :
    (a : EnvironmentStatus) → EnvironmentStatus.parse (EnvironmentStatus.as_str a) ≡ some a
unfolding EnvironmentStatus.parse
EnvironmentStatus-print EnvironmentStatus.active = refl
EnvironmentStatus-print EnvironmentStatus.archived = refl
EnvironmentStatus-print EnvironmentStatus.failed = refl
EnvironmentStatus-print EnvironmentStatus.deleting = refl

EnvironmentStatus-codec :
    (s : String) (a : EnvironmentStatus)
    → (EnvironmentStatus.parse s ≡ some a) ↔ (s ≡ EnvironmentStatus.as_str a)
unfolding EnvironmentStatus.parse
EnvironmentStatus-codec s a = (
  λ h.
      ground
        (arith, eq_iff s "active", eq_iff s "archived", eq_iff s "failed", eq_iff s "deleting"),
  λ e. rw e (EnvironmentStatus-print a),
)

DraftStatus-print : (a : DraftStatus) → DraftStatus.parse (DraftStatus.as_str a) ≡ some a
unfolding DraftStatus.parse
DraftStatus-print DraftStatus.draft = refl
DraftStatus-print DraftStatus.loading_git = refl
DraftStatus-print DraftStatus.ready = refl
DraftStatus-print DraftStatus.validating = refl
DraftStatus-print DraftStatus.validated = refl
DraftStatus-print DraftStatus.failed = refl

DraftStatus-codec :
    (s : String) (a : DraftStatus) → (DraftStatus.parse s ≡ some a) ↔ (s ≡ DraftStatus.as_str a)
unfolding DraftStatus.parse
DraftStatus-codec s a = (
  λ h. ground (
    arith,
    eq_iff s "draft",
    eq_iff s "loading_git",
    eq_iff s "ready",
    eq_iff s "validating",
    eq_iff s "validated",
    eq_iff s "failed",
  ),
  λ e. rw e (DraftStatus-print a),
)

PreparationStatus-print :
    (a : PreparationStatus) → PreparationStatus.parse (PreparationStatus.as_str a) ≡ some a
unfolding PreparationStatus.parse
PreparationStatus-print PreparationStatus.running = refl
PreparationStatus-print PreparationStatus.succeeded = refl
PreparationStatus-print PreparationStatus.failed = refl

PreparationStatus-codec :
    (s : String) (a : PreparationStatus)
    → (PreparationStatus.parse s ≡ some a) ↔ (s ≡ PreparationStatus.as_str a)
unfolding PreparationStatus.parse
PreparationStatus-codec s a = (
  λ h. ground (arith, eq_iff s "running", eq_iff s "succeeded", eq_iff s "failed"),
  λ e. rw e (PreparationStatus-print a),
)

LifecycleStatus-print :
    (a : LifecycleStatus) → LifecycleStatus.from_db (LifecycleStatus.to_db a) ≡ ok a
unfolding LifecycleStatus.from_db
LifecycleStatus-print LifecycleStatus.running = refl
LifecycleStatus-print LifecycleStatus.succeeded = refl
LifecycleStatus-print LifecycleStatus.failed = refl
LifecycleStatus-print LifecycleStatus.canceled = refl

LifecycleStatus-codec :
    (s : String) (a : LifecycleStatus)
    → (LifecycleStatus.from_db s ≡ ok a) ↔ (s ≡ LifecycleStatus.to_db a)
unfolding LifecycleStatus.from_db
LifecycleStatus-codec s a = (
  λ h.
      ground
        (arith, eq_iff s "running", eq_iff s "succeeded", eq_iff s "failed", eq_iff s "canceled"),
  λ e. rw e (LifecycleStatus-print a),
)

ExecutionMode-print : (a : ExecutionMode) → ExecutionMode.from_db (ExecutionMode.to_db a) ≡ ok a
unfolding ExecutionMode.from_db
ExecutionMode-print ExecutionMode.server = refl
ExecutionMode-print ExecutionMode.local = refl

ExecutionMode-codec :
    (s : String) (a : ExecutionMode)
    → (ExecutionMode.from_db s ≡ ok a) ↔ (s ≡ ExecutionMode.to_db a)
unfolding ExecutionMode.from_db
ExecutionMode-codec s a =
    (λ h. ground (arith, eq_iff s "server", eq_iff s "local"), λ e. rw e (ExecutionMode-print a))

DisplayStatus-print : (a : DisplayStatus) → DisplayStatus.parse (DisplayStatus.as_str a) ≡ some a
unfolding DisplayStatus.parse
DisplayStatus-print DisplayStatus.queued = refl
DisplayStatus-print DisplayStatus.running = refl
DisplayStatus-print DisplayStatus.cancelling = refl
DisplayStatus-print DisplayStatus.succeeded = refl
DisplayStatus-print DisplayStatus.failed = refl
DisplayStatus-print DisplayStatus.canceled = refl

DisplayStatus-codec :
    (s : String) (a : DisplayStatus)
    → (DisplayStatus.parse s ≡ some a) ↔ (s ≡ DisplayStatus.as_str a)
unfolding DisplayStatus.parse
DisplayStatus-codec s a = (
  λ h. ground (
    arith,
    eq_iff s "queued",
    eq_iff s "running",
    eq_iff s "cancelling",
    eq_iff s "succeeded",
    eq_iff s "failed",
    eq_iff s "canceled",
  ),
  λ e. rw e (DisplayStatus-print a),
)

ReconcileReason-print :
    (a : ReconcileReason) → ReconcileReason.parse (ReconcileReason.as_str a) ≡ some a
unfolding ReconcileReason.parse
ReconcileReason-print ReconcileReason.code_change = refl
ReconcileReason-print ReconcileReason.source_state_change = refl

ReconcileReason-codec :
    (s : String) (a : ReconcileReason)
    → (ReconcileReason.parse s ≡ some a) ↔ (s ≡ ReconcileReason.as_str a)
unfolding ReconcileReason.parse
ReconcileReason-codec s a = (
  λ h. ground (arith, eq_iff s "code_change", eq_iff s "source_state_change"),
  λ e. rw e (ReconcileReason-print a),
)

-- A text that a status column or an API parameter may hold is read as a status exactly when it is
-- the text that the status is written as, for the plan, environment, draft, preparation, invocation
-- and display statuses, the execution modes and the reconcile reasons.
pub statuses_codec :
    (s : String)
    → ((a : PlanStatus) → (PlanStatus.parse s ≡ some a) ↔ (s ≡ PlanStatus.as_str a))
      × ((a : EnvironmentStatus)
          → (EnvironmentStatus.parse s ≡ some a) ↔ (s ≡ EnvironmentStatus.as_str a))
      × ((a : DraftStatus) → (DraftStatus.parse s ≡ some a) ↔ (s ≡ DraftStatus.as_str a))
      × ((a : PreparationStatus)
          → (PreparationStatus.parse s ≡ some a) ↔ (s ≡ PreparationStatus.as_str a))
      × ((a : LifecycleStatus) → (LifecycleStatus.from_db s ≡ ok a) ↔ (s ≡ LifecycleStatus.to_db a))
      × ((a : ExecutionMode) → (ExecutionMode.from_db s ≡ ok a) ↔ (s ≡ ExecutionMode.to_db a))
      × ((a : DisplayStatus) → (DisplayStatus.parse s ≡ some a) ↔ (s ≡ DisplayStatus.as_str a))
      × ((a : ReconcileReason)
          → (ReconcileReason.parse s ≡ some a) ↔ (s ≡ ReconcileReason.as_str a))
statuses_codec s = (
  PlanStatus-codec s,
  EnvironmentStatus-codec s,
  DraftStatus-codec s,
  PreparationStatus-codec s,
  LifecycleStatus-codec s,
  ExecutionMode-codec s,
  DisplayStatus-codec s,
  ReconcileReason-codec s,
)
