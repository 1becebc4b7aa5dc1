-- ===== src/Status/DisplayStatus.antt =====
-- src/invocation_read_model.rs: the status that the operator views show.
use dbtx.Prelude.{String, Option, none, some, ◌==◌, string_eq, if◌then◌else◌}

pub data DisplayStatus : Type 0 where
  queued running cancelling succeeded failed canceled : DisplayStatus

abbrev pub as_str : DisplayStatus → String
as_str queued = "queued"
as_str running = "running"
as_str cancelling = "cancelling"
as_str succeeded = "succeeded"
as_str failed = "failed"
as_str canceled = "canceled"

unfoldable pub parse : String → Option DisplayStatus
parse s =
    if s == "queued"
    then some queued
    else if s == "running"
    then some running
    else if s == "cancelling"
    then some cancelling
    else if s == "succeeded"
    then some succeeded
    else if s == "failed"
    then some failed
    else if s == "canceled"
    then some canceled
    else none
