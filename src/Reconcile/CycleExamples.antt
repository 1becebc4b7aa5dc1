-- ===== src/Reconcile/CycleExamples.antt =====
-- The theorems of the cycle and of manifest preparation, at the project of Examples.
use dbtx.Prelude.{inl, arith, false, ◌≡◌, refl, some, [], ◌∷◌}
use dbtx.Status.PreparationStatus.{failed}
use dbtx.Plan.{ActualState}
use dbtx.Plan.Outcome.{blank_state}
use dbtx.Source.{SourceDb}
use dbtx.Reconcile.{ReconcilePreparation, ReconcileDb}
use dbtx.Reconcile.Action.{returned, give}
use dbtx.Reconcile.Examples.{formats, prod, bare_db, preparer, starter}
use dbtx.Reconcile.Keeps.{Gives}
use dbtx.Reconcile.Prepare.{
  get_environment_reconcile_preparation_by_scope, new_preparation, manifest_fingerprint,
  ManifestStarter, in_progress, ensure_manifest_preparation,
}
use dbtx.Reconcile.Cycle.{FreshIds, reconcile_environment_once}
use dbtx.Reconcile.Waiting.{IsEnsured, preparation_outcome}
use dbtx.Reconcile.BackOff.{PutsOff}
use dbtx.Reconcile.Turns.{turn_waits}

abbrev manifests : ManifestStarter Unit
manifests = record {
  prepare_remote_manifest_capture = λ invocation project slug. give tt;
  start = λ invocation prepared. give invocation;
}

preparation_outcome_example :
    Gives
      (IsEnsured formats 50 prod (some "deadbeef") bare_db)
      (ensure_manifest_preparation formats manifests 50 78 prod bare_db)
preparation_outcome_example = preparation_outcome formats manifests 50 78 prod bare_db

abbrev never_run : ActualState
never_run = blank_state 50 1 2

-- The preparation failed, and is put off until 60.
abbrev put_off : ReconcilePreparation
put_off =
    record (new_preparation 40 1 2 (manifest_fingerprint formats "deadbeef" never_run) "deadbeef"
      77) { status = failed; next_attempt_at = some 60 }

abbrev waiting_db : ReconcileDb
waiting_db = record bare_db { preparations = put_off ∷ [] }

put_off_is_in_progress :
    ensure_manifest_preparation formats manifests 50 78 prod waiting_db
    ≡ returned in_progress waiting_db
unfolding ensure_manifest_preparation
put_off_is_in_progress = refl

abbrev ids : FreshIds
ids = record { lease = 900; plan = 40; invocation = 77; preparation = 78 }

put_off_by_preparation : PutsOff formats prod never_run "deadbeef" waiting_db 60
unfolding get_environment_reconcile_preparation_by_scope
put_off_by_preparation = inl (put_off, refl, refl, refl, refl, refl)

turn_waits_example :
    (s : SourceDb) × (reconcile_environment_once formats preparer starter manifests 9 50 ids prod
        waiting_db
      ≡ returned false (record waiting_db { source_db = s }))
turn_waits_example =
    turn_waits formats preparer starter manifests 9 50 ids prod waiting_db never_run "deadbeef" 60
      refl refl (λ h. cc h) put_off_by_preparation (omega arith)
