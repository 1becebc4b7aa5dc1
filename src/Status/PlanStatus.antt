-- ===== src/Status/PlanStatus.antt =====
-- src/db/records.rs: the status of a reconciliation plan.
use dbtx.Prelude.{String, Bool, true, false, Option, none, some, ◌==◌, string_eq, if◌then◌else◌}

pub data PlanStatus : Type 0 where
  planned blocked admitted completed failed canceled superseded : PlanStatus

abbrev pub as_str : PlanStatus → String
as_str planned = "planned"
as_str blocked = "blocked"
as_str admitted = "admitted"
as_str completed = "completed"
as_str failed = "failed"
as_str canceled = "canceled"
as_str superseded = "superseded"

unfoldable pub parse : String → Option PlanStatus
parse s =
    if s == "planned"
    then some planned
    else if s == "blocked"
    then some blocked
    else if s == "admitted"
    then some admitted
    else if s == "completed"
    then some completed
    else if s == "failed"
    then some failed
    else if s == "canceled"
    then some canceled
    else if s == "superseded"
    then some superseded
    else none

abbrev pub is_terminal : PlanStatus → Bool
is_terminal completed = true
is_terminal failed = true
is_terminal canceled = true
is_terminal superseded = true
is_terminal _ = false

abbrev pub is_admissible : PlanStatus → Bool
is_admissible planned = true
is_admissible blocked = true
is_admissible _ = false
