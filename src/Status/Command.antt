-- ===== src/Status/Command.antt =====
-- src/services/mod.rs (InvocationCommand): what an invocation runs.
use dbtx.Prelude.{String, Bool, true, false}

pub data InvocationCommand : Type 0 where
  build run ls test seed release : InvocationCommand
  project_validate environment_prepare environment_validate manifest_prepare : InvocationCommand

abbrev pub as_str : InvocationCommand → String
as_str build = "build"
as_str run = "run"
as_str ls = "ls"
as_str test = "test"
as_str seed = "seed"
as_str release = "release"
as_str project_validate = "project_validate"
as_str environment_prepare = "environment_prepare"
as_str environment_validate = "environment_validate"
as_str manifest_prepare = "manifest_prepare"

abbrev pub persists_state : InvocationCommand → Bool
persists_state ls = false
persists_state release = false
persists_state project_validate = false
persists_state environment_prepare = false
persists_state environment_validate = false
persists_state _ = true
