-- ===== src/Status/PreparationStatus.antt =====
-- src/db/records.rs: the status of a reconcile preparation.
use dbtx.Prelude.{String, Option, none, some, ◌==◌, string_eq, if◌then◌else◌}

pub data PreparationStatus : Type 0 where
  running succeeded failed : PreparationStatus

abbrev pub as_str : PreparationStatus → String
as_str running = "running"
as_str succeeded = "succeeded"
as_str failed = "failed"

unfoldable pub parse : String → Option PreparationStatus
parse s =
    if s == "running"
    then some running
    else if s == "succeeded"
    then some succeeded
    else if s == "failed"
    then some failed
    else none
