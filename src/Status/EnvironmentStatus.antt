-- ===== src/Status/EnvironmentStatus.antt =====
-- src/db/records.rs: the status of a remote environment.
use dbtx.Prelude.{String, Option, none, some, ◌==◌, string_eq, if◌then◌else◌}

pub data EnvironmentStatus : Type 0 where
  active archived failed deleting : EnvironmentStatus

abbrev pub as_str : EnvironmentStatus → String
as_str active = "active"
as_str archived = "archived"
as_str failed = "failed"
as_str deleting = "deleting"

unfoldable pub parse : String → Option EnvironmentStatus
parse s =
    if s == "active"
    then some active
    else if s == "archived"
    then some archived
    else if s == "failed"
    then some failed
    else if s == "deleting"
    then some deleting
    else none
