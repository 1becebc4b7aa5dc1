-- ===== src/Status/DraftStatus.antt =====
-- src/db/records.rs: the status of a project or environment onboarding draft.
use dbtx.Prelude.{String, Bool, true, false, Option, none, some, ◌==◌, string_eq, if◌then◌else◌}

pub data DraftStatus : Type 0 where
  draft loading_git ready validating validated failed : DraftStatus

abbrev pub as_str : DraftStatus → String
as_str draft = "draft"
as_str loading_git = "loading_git"
as_str ready = "ready"
as_str validating = "validating"
as_str validated = "validated"
as_str failed = "failed"

unfoldable pub parse : String → Option DraftStatus
parse s =
    if s == "draft"
    then some draft
    else if s == "loading_git"
    then some loading_git
    else if s == "ready"
    then some ready
    else if s == "validating"
    then some validating
    else if s == "validated"
    then some validated
    else if s == "failed"
    then some failed
    else none

abbrev pub is_terminal : DraftStatus → Bool
is_terminal validated = true
is_terminal failed = true
is_terminal _ = false
