-- ===== src/Status/LifecycleStatus.antt =====
-- src/api.rs (InvocationLifecycleStatus) and its texts in src/db/mod.rs.
use dbtx.Prelude.{String, ◌==◌, string_eq, if◌then◌else◌}
use dbtx.Error.{AppResult, ok, err, invalid_database_value}

pub data LifecycleStatus : Type 0 where
  running succeeded failed canceled : LifecycleStatus

abbrev pub to_db : LifecycleStatus → String
to_db running = "running"
to_db succeeded = "succeeded"
to_db failed = "failed"
to_db canceled = "canceled"

unfoldable pub from_db : String → AppResult LifecycleStatus
from_db s =
    if s == "running"
    then ok running
    else if s == "succeeded"
    then ok succeeded
    else if s == "failed"
    then ok failed
    else if s == "canceled"
    then ok canceled
    else err (invalid_database_value "invocations.status" s)
