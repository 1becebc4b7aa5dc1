-- ===== src/Status/ReconcileReason.antt =====
-- src/services/reconcile_identity.rs: why a plan was made.
use dbtx.Prelude.{String, Option, none, some, ◌==◌, string_eq, if◌then◌else◌}

pub data ReconcileReason : Type 0 where
  code_change source_state_change : ReconcileReason

abbrev pub as_str : ReconcileReason → String
as_str code_change = "code_change"
as_str source_state_change = "source_state_change"

unfoldable pub parse : String → Option ReconcileReason
parse s =
    if s == "code_change"
    then some code_change
    else if s == "source_state_change"
    then some source_state_change
    else none
