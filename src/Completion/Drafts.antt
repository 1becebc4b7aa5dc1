-- ===== src/Completion/Drafts.antt =====
-- src/db/completion.rs: what the completion of a validation or preparation does to the onboarding
-- draft that it was for.
use dbtx.Prelude.{
  ℕ, String, Bool, ◌==◌, nat_eq, Option, none, some, coalesce, unwrap_or, update_rows,
}
use dbtx.Error.{AppResult, ok, internal, ok_or, ◌>>=◌}
use dbtx.Status.DraftStatus.{ready, validated, failed}
use dbtx.Status.LifecycleStatus.{LifecycleStatus, succeeded}
use dbtx.Completion.{ProjectDraft, EnvironmentDraft, ExecutionCompletion, Documents, CompletionDb}

abbrev pub is_project_draft : ℕ → ProjectDraft → Bool
is_project_draft i d = d.id == i

abbrev pub is_environment_draft : ℕ → EnvironmentDraft → Bool
is_environment_draft i d = d.id == i

abbrev pub with_project_draft : ℕ → (ProjectDraft → ProjectDraft) → CompletionDb → CompletionDb
with_project_draft i f db = record db {
  project_drafts = update_rows (is_project_draft i) f db.project_drafts;
}

abbrev pub with_environment_draft :
    ℕ → (EnvironmentDraft → EnvironmentDraft) → CompletionDb → CompletionDb
with_environment_draft i f db = record db {
  environment_drafts = update_rows (is_environment_draft i) f db.environment_drafts;
}

abbrev pub validated_project : ℕ → String → String → ProjectDraft → ProjectDraft
validated_project now name branch d = record d {
  status = validated;
  validation_error = none;
  project_name = some name;
  default_branch = some branch;
  validated_at = some now;
  updated_at = now;
}

abbrev pub failed_project : ℕ → String → ProjectDraft → ProjectDraft
failed_project now message d = record d {
  status = failed;
  validation_error = some message;
  validated_at = none;
  updated_at = now;
}

module _ (documents : Documents) (now draft : ℕ) (completion : ExecutionCompletion) where
  abbrev pub project_validated : CompletionDb → AppResult CompletionDb
  project_validated db = do
    result ← ok_or (internal "project validation completed without metadata") completion.result
    name ←
        ok_or (internal "project validation missing project_name")
          (documents.text_at result "project_name")
    branch ←
        ok_or (internal "project validation missing default_branch")
          (documents.text_at result "default_branch")
    ok (with_project_draft draft (validated_project now name branch) db)

  abbrev pub project_validation_for : LifecycleStatus → CompletionDb → AppResult CompletionDb
  project_validation_for succeeded db = project_validated db
  project_validation_for _ db = ok (
      with_project_draft draft
        (failed_project now (unwrap_or completion.error "project validation failed")) db)

  unfoldable pub apply_project_validation_completion : CompletionDb → AppResult CompletionDb
  apply_project_validation_completion = project_validation_for completion.status

abbrev pub ready_environment :
    ℕ → Option String → Option String → String → String → EnvironmentDraft → EnvironmentDraft
ready_environment now branch sha branches commits d = record d {
  status = ready;
  validation_error = none;
  git_branch = coalesce branch d.git_branch;
  git_commit_sha = coalesce sha d.git_commit_sha;
  branch_options = branches;
  commit_options = commits;
  updated_at = now;
}

-- `validated_at` is left as it is.
abbrev pub unprepared_environment : ℕ → String → EnvironmentDraft → EnvironmentDraft
unprepared_environment now message d = record d {
  status = failed;
  validation_error = some message;
  updated_at = now;
}

abbrev pub validated_environment : ℕ → Option String → String → EnvironmentDraft → EnvironmentDraft
validated_environment now branch sha d = record d {
  status = validated;
  validation_error = none;
  git_branch = coalesce branch d.git_branch;
  git_commit_sha = some sha;
  validated_at = some now;
  updated_at = now;
}

abbrev pub failed_environment : ℕ → String → EnvironmentDraft → EnvironmentDraft
failed_environment now message d = record d {
  status = failed;
  validation_error = some message;
  validated_at = none;
  updated_at = now;
}

module _ (documents : Documents) (now draft : ℕ) (completion : ExecutionCompletion) where
  abbrev pub environment_prepared : CompletionDb → AppResult CompletionDb
  environment_prepared db = do
    result ← ok_or (internal "environment prepare completed without metadata") completion.result
    ok (
        with_environment_draft draft
          (ready_environment now (documents.text_at result "selected_branch")
            (documents.text_at result "latest_commit_sha")
            (unwrap_or (documents.member_at result "branches") "[]")
            (unwrap_or (documents.member_at result "commits") "[]"))
          db)

  abbrev pub environment_prepare_for : LifecycleStatus → CompletionDb → AppResult CompletionDb
  environment_prepare_for succeeded db = environment_prepared db
  environment_prepare_for _ db = ok (
      with_environment_draft draft
        (unprepared_environment now (unwrap_or completion.error "environment preparation failed"))
        db)

  unfoldable pub apply_environment_prepare_completion : CompletionDb → AppResult CompletionDb
  apply_environment_prepare_completion = environment_prepare_for completion.status

  abbrev pub environment_validated : CompletionDb → AppResult CompletionDb
  environment_validated db = do
    result ← ok_or (internal "environment validation completed without metadata") completion.result
    sha ←
        ok_or (internal "environment validation missing resolved_commit_sha")
          (documents.text_at result "resolved_commit_sha")
    ok (
        with_environment_draft draft
          (validated_environment now (documents.text_at result "selected_branch") sha) db)

  abbrev pub environment_validation_for : LifecycleStatus → CompletionDb → AppResult CompletionDb
  environment_validation_for succeeded db = environment_validated db
  environment_validation_for _ db = ok (
      with_environment_draft draft
        (failed_environment now (unwrap_or completion.error "environment validation failed")) db)

  unfoldable pub apply_environment_validation_completion : CompletionDb → AppResult CompletionDb
  apply_environment_validation_completion = environment_validation_for completion.status
