-- ===== src/Reconcile/Turns.antt =====
-- One environment's turn in the cycle.
use dbtx.Prelude.{
  ℕ, ◌<◌, String, true, false, ◌≡◌, ◌≢◌, refl, Option, none, some, List, [], ◌∷◌, arith, ltb,
}
use dbtx.Error.{ok}
use dbtx.Plan.{ActualState}
use dbtx.Source.{SourceStateEvent, SourceDb}
use dbtx.Source.Events.{list_unsatisfied_source_state_events}
use dbtx.Reconcile.{Environment, ReconcileDb}
use dbtx.Reconcile.Formats.{Formats}
use dbtx.Reconcile.Action.{returned}
use dbtx.Reconcile.Queries.{get_environment_actual_state}
use dbtx.Reconcile.Admission.{Preparer, InvocationStarter}
use dbtx.Reconcile.Prepare.{ManifestStarter}
use dbtx.Reconcile.Cycle.{
  FreshIds, advance_for, advance_and_load_unsatisfied_source_events, reconcile_unless_backing_off,
  reconcile_environment_once,
}
use dbtx.Reconcile.BackOff.{PutsOff, backoff_lem}

-- Only the tables of source events change.
advance_returns :
    (formats : Formats) (now : ℕ) (env : Environment) (baseline : Option ℕ) (db : ReconcileDb)
    → (events : List SourceStateEvent) × (s : SourceDb)
      × (advance_and_load_unsatisfied_source_events formats now env baseline db
          ≡ returned events (record db { source_db = s }))
unfolding advance_and_load_unsatisfied_source_events
advance_returns formats now env baseline db =
    by_events baseline (list_unsatisfied_source_state_events env.project_id env.id db.source_db)
  where
    by_events :
        (baseline : Option ℕ) (events : List SourceStateEvent)
        → (after : List SourceStateEvent) × (s : SourceDb) × (advance_for formats now env baseline
              events db
            ≡ returned after (record db { source_db = s }))
    by_events none events = (events, db.source_db, refl)
    by_events (some run) [] = ([], db.source_db, refl)
    by_events (some run) (ev ∷ rest) = (_, _, refl)

module _ {Prepared : Type 0} (formats : Formats) (preparer : Preparer Prepared)
    (starter : InvocationStarter Prepared) (manifests : ManifestStarter Prepared) (fuel now : ℕ)
    (ids : FreshIds) (env : Environment) where
  -- When an environment is to go to a commit that its last successful run was not at, and that change is
  -- put off until a later instant, its turn in the cycle makes no plan and changes no table but those
  -- of source events. It is put off by a failed preparation of the commit's manifest or, when the
  -- environment's preparation has not failed, by its last failed or canceled plan, if that was for
  -- the same change.
  pub turn_waits :
      (db : ReconcileDb) (actual : ActualState) (sha : String) (until : ℕ)
      → get_environment_actual_state now env.project_ref env.slug db ≡ ok actual
      → env.git_commit_sha ≡ some sha
      → actual.last_successful_commit_sha ≢ some sha
      → PutsOff formats env actual sha db until
      → now < until
      → (s : SourceDb) × (reconcile_environment_once formats preparer starter manifests fuel now ids
            env db
          ≡ returned false (record db { source_db = s }))
  unfolding reconcile_environment_once reconcile_unless_backing_off
  turn_waits db actual sha until found target other off later =
      let (events, s, advanced) =
        advance_returns formats now env actual.last_successful_run_id db in
      let waiting = backoff_lem formats now env actual sha events db s until target other off in
      let ahead : ltb now until ≡ true = ground (arith, later) in
      (s, rw found (rw advanced (rw waiting (rw ahead refl))))
