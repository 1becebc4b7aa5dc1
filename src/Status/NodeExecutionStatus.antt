-- ===== src/Status/NodeExecutionStatus.antt =====
-- src/api.rs: what a dbt node ended with. "failed" is a second spelling of `fail`.
use dbtx.Prelude.{
  String, Bool, true, false, Option, none, some, ◌||◌, ◌==◌, string_eq, if◌then◌else◌,
}

pub data NodeExecutionStatus : Type 0 where
  success pass created error fail skipped : NodeExecutionStatus

abbrev pub as_str : NodeExecutionStatus → String
as_str success = "success"
as_str pass = "pass"
as_str created = "created"
as_str error = "error"
as_str fail = "fail"
as_str skipped = "skipped"

unfoldable pub parse : String → Option NodeExecutionStatus
parse s =
    if s == "success"
    then some success
    else if s == "pass"
    then some pass
    else if s == "created"
    then some created
    else if s == "error"
    then some error
    else if s == "fail" || s == "failed"
    then some fail
    else if s == "skipped"
    then some skipped
    else none

abbrev pub is_promotable : NodeExecutionStatus → Bool
is_promotable success = true
is_promotable pass = true
is_promotable created = true
is_promotable _ = false
