-- ===== src/Status.antt =====
-- The enums whose texts the database stores and the API shows, a module to each.
pub mod PlanStatus
pub mod EnvironmentStatus
pub mod DraftStatus
pub mod PreparationStatus
pub mod LifecycleStatus
pub mod ExecutionMode
pub mod DisplayStatus
pub mod ReconcileReason
pub mod NodeExecutionStatus
pub mod Command
pub mod Codec
mod Examples
