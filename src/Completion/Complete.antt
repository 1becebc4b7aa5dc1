-- ===== src/Completion/Complete.antt =====
-- src/db/invocations.rs: `complete_invocation`, by the worker that holds the lease, and
-- `force_complete_invocation`. Each is one transaction: an error leaves every table as it was.
use dbtx.Prelude.{
  is_some, is_none, not, ◌&&◌, ◌||◌, ℕ, String, Bool, Option, none, some, nat_eq, coalesce,
  if◌then◌else◌, any, update_rows,
}
use dbtx.Error.{AppResult, ok, err, sqlx, invocation_ownership_mismatch, ◌>>=◌}
use dbtx.Invocation.{Invocation, is_running}
use dbtx.Invocation.Queue.{has_id}
use dbtx.Invocation.Lease.{
  is_held, get_invocation_persistence, get_invocation_persistence_for_completion,
}
use dbtx.Reconcile.Formats.{Formats}
use dbtx.Completion.{ExecutionCompletion, Documents, CompletionDb}
use dbtx.Completion.Finalize.{with_plan_db}
use dbtx.Completion.SideEffects.{apply_invocation_completion_side_effects}

abbrev pub completed_row : ℕ → ExecutionCompletion → Invocation → Invocation
completed_row now completion r = record r {
  status = completion.status;
  exit_code = some completion.exit_code;
  error = completion.error;
  completed_at = some now;
  lease_token = none;
}

abbrev pub forced_row : ℕ → ExecutionCompletion → Invocation → Invocation
forced_row now completion r = record r {
  status = completion.status;
  exit_code = some completion.exit_code;
  error = completion.error;
  completed_at = coalesce r.completed_at (some now);
  lease_token = none;
}

-- The CHECK `invocations_claim_lease_consistency` of migrations/0001_init.sql.
abbrev pub has_consistent_lease : Invocation → Bool
has_consistent_lease r =
    if is_running r.status
    then is_none r.claimed_by && is_none r.lease_token
      || is_some r.claimed_by && is_some r.lease_token
    else is_none r.lease_token

abbrev pub with_invocations :
    (Invocation → Bool) → (Invocation → Invocation) → CompletionDb → CompletionDb
with_invocations p f db =
    with_plan_db (λ plans. record plans { invocations = update_rows p f plans.invocations }) db

-- `persistence.project_id.zip(persistence.environment_id)`.
abbrev pub zip : Option ℕ → Option ℕ → Option (ℕ × ℕ)
zip (some p) (some e) = some (p, e)
zip _ _ = none

module _ (formats : Formats) (documents : Documents) (now i : ℕ) where
  -- An update that a row breaks the CHECK by.
  abbrev pub update_checked :
      (Invocation → Bool) → (Invocation → Invocation) → CompletionDb → AppResult CompletionDb
  update_checked p f db =
      if any (λ r. p r && not (has_consistent_lease (f r))) db.reconcile.plan_db.invocations
      then err sqlx
      else ok (with_invocations p f db)

  abbrev pub end_held : String → ℕ → ExecutionCompletion → CompletionDb → AppResult CompletionDb
  end_held worker_id token completion db =
      if any (is_held i worker_id token) db.reconcile.plan_db.invocations
      then update_checked (is_held i worker_id token) (completed_row now completion) db
      else err invocation_ownership_mismatch

  unfoldable pub complete_invocation :
      String → ℕ → ExecutionCompletion → CompletionDb → AppResult CompletionDb
  unfolding get_invocation_persistence_for_completion apply_invocation_completion_side_effects
  complete_invocation worker_id token completion db = do
    persistence ←
        get_invocation_persistence_for_completion i worker_id token db.reconcile.plan_db.invocations
    applied ←
        apply_invocation_completion_side_effects formats documents now i persistence completion db
    end_held worker_id token completion applied

  unfoldable pub force_complete_invocation :
      ExecutionCompletion → CompletionDb → AppResult (Option (ℕ × ℕ) × CompletionDb)
  unfolding get_invocation_persistence apply_invocation_completion_side_effects
  force_complete_invocation completion db = do
    persistence ← get_invocation_persistence i none none db.reconcile.plan_db.invocations
    applied ←
        apply_invocation_completion_side_effects formats documents now i persistence completion db
    forced ← update_checked (has_id i) (forced_row now completion) applied
    ok (zip persistence.project_id persistence.environment_id, forced)
