-- ===== src/Status/ExecutionMode.antt =====
-- src/api.rs (InvocationExecutionModeApi) and its texts in src/db/mod.rs.
use dbtx.Prelude.{String, Bool, true, false, ◌==◌, string_eq, if◌then◌else◌}
use dbtx.Error.{AppResult, ok, err, invalid_database_value}

pub data ExecutionMode : Type 0 where
  server local : ExecutionMode

abbrev pub to_db : ExecutionMode → String
to_db server = "server"
to_db local = "local"

unfoldable pub from_db : String → AppResult ExecutionMode
from_db s =
    if s == "server"
    then ok server
    else if s == "local"
    then ok local
    else err (invalid_database_value "invocations.execution_mode" s)

abbrev pub mode_beq : ExecutionMode → ExecutionMode → Bool
mode_beq server server = true
mode_beq local local = true
mode_beq _ _ = false
