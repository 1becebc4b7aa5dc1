-- ===== src/Completion/Release.antt =====
-- src/db/completion.rs: the release of a commit to an environment; src/db/runs.rs: the version that it
-- records.
use dbtx.Prelude.{
  ℕ, String, Bool, ◌&&◌, Option, some, [], ◌∷◌, ◌++◌, ◌==◌, nat_eq, string_eq, option_eq,
  if◌then◌else◌, update_rows,
}
use dbtx.Error.{AppResult, ok, internal, ok_or, ◌>>=◌}
use dbtx.Reconcile.{Environment}
use dbtx.Reconcile.Formats.{Formats, text, document}
use dbtx.Reconcile.Queries.{get_environment_by_id}
use dbtx.Completion.{EnvironmentVersion, Documents, CompletionDb}

abbrev pub version_of : Formats → ℕ → String → Environment → EnvironmentVersion
version_of formats now reason env = record {
  environment_id = env.id;
  project_id = env.project_id;
  recorded_at = now;
  reason = reason;
  git_branch = env.git_branch;
  git_commit_sha = env.git_commit_sha;
  use_latest_commit = env.use_latest_commit;
  auto_reconcile = env.auto_reconcile;
  immutable = env.immutable;
  baseline_environment_id = env.baseline_environment_id;
  metadata = formats.object (
      ("environment_slug", text env.slug)
      ∷ ("target_name", text env.target_name)
      ∷ ("environment_metadata", document env.metadata)
      ∷ []);
}

abbrev pub record_environment_version :
    Formats → ℕ → Environment → String → CompletionDb → CompletionDb
record_environment_version formats now env reason db = record db {
  environment_versions = db.environment_versions ++ version_of formats now reason env ∷ [];
}

abbrev pub is_environment_row : ℕ → ℕ → Environment → Bool
is_environment_row p e env = env.id == e && env.project_id == p

abbrev pub retargeted : Option String → String → Environment → Environment
retargeted branch sha env = record env { git_branch = branch; git_commit_sha = some sha }

module _ (formats : Formats) (documents : Documents) (now p e : ℕ) where
  abbrev pub retarget : Option String → String → CompletionDb → CompletionDb
  retarget branch sha db = record db {
    reconcile = record (db.reconcile) {
      environments =
          update_rows (is_environment_row p e) (retargeted branch sha) db.reconcile.environments;
    };
  }

  abbrev pub retarget_and_record : Option String → String → CompletionDb → AppResult CompletionDb
  retarget_and_record branch sha db =
      let after = retarget branch sha db in
      do
        env ← get_environment_by_id e after.reconcile
        ok (record_environment_version formats now env "released" after)

  -- Nothing is recorded when the environment has the commit.
  abbrev pub release_from :
      Environment → Option String → String → CompletionDb → AppResult CompletionDb
  release_from existing branch sha db =
      if existing.git_commit_sha == some sha then ok db else retarget_and_record branch sha db

  unfoldable pub apply_release_completion : Option String → CompletionDb → AppResult CompletionDb
  apply_release_completion result db = do
    metadata ←
        ok_or (internal "release validation completed without resolved commit metadata") result
    sha ←
        ok_or (internal "release validation missing resolved_commit_sha")
          (documents.text_at metadata "resolved_commit_sha")
    existing ← get_environment_by_id e db.reconcile
    release_from existing (documents.text_at metadata "git_branch") sha db
