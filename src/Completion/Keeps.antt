-- ===== src/Completion/Keeps.antt =====
-- What the side effects of a completion leave of the tables of plans, invocations and resources,
-- when the transaction is committed.
use dbtx.Prelude.{
  ℕ, String, Bool, true, false, ◌≡◌, refl, Option, none, some, if◌then◌else◌, ap, ◌∙◌, ◌==◌, ◌&&◌,
  string_eq, option_eq,
}
use dbtx.Error.{AppError, AppResult, ok, err, ◌>>=◌}
use dbtx.Status.LifecycleStatus.{LifecycleStatus, succeeded}
use dbtx.Invocation.Lease.{PersistenceRecord}
use dbtx.Plan.{PlanDb}
use dbtx.Plan.Outcome.{is_success}
use dbtx.Reconcile.{ReconcileDb}
use dbtx.Reconcile.Formats.{Formats}
use dbtx.Completion.{ManifestSnapshot, ExecutionCompletion, Documents, CompletionDb}
use dbtx.Completion.Manifests.{persist_manifest}
use dbtx.Completion.Promote.{promote_manifest_state}
use dbtx.Completion.NodeStates.{rebuild_current_state_up_to}
use dbtx.Completion.Finalize.{
  should_promote_manifest, RunFinalization, with_snapshot, promoted, finalize_run,
  upsert_environment_actual_state_for_run,
}
use dbtx.Completion.Drafts.{
  project_validation_for, environment_prepare_for, environment_validation_for,
}
use dbtx.Completion.Release.{apply_release_completion}
use dbtx.Completion.SideEffects.{finalization, end_run, for_command}

-- What holds of the result of a transaction that is committed.
pub data Commits {A : Type 0} (Q : A → Type 0) : AppResult A → Type 0 where
  committed : {a : A} → Q a → Commits Q (ok a)
  rolled_back : {e : AppError} → Commits Q (err e)

pub bind-Commits :
    {A B : Type 0} (R : A → Type 0) {Q : B → Type 0} {m : AppResult A} {k : A → AppResult B}
    → Commits R m
    → ((a : A) → R a → Commits Q (k a))
    → Commits Q (m >>= k)
unfolding ◌>>=◌
bind-Commits R (committed h) next = next _ h
bind-Commits R rolled_back next = rolled_back

pub weaken-Commits :
    {A : Type 0} (R : A → Type 0) {Q : A → Type 0} {m : AppResult A}
    → ((a : A) → R a → Q a)
    → Commits R m
    → Commits Q m
weaken-Commits R more (committed h) = committed (more _ h)
weaken-Commits R more rolled_back = rolled_back

pub then-Commits :
    {A B : Type 0} {Q : B → Type 0} (m : AppResult A) {k : A → AppResult B}
    → ((a : A) → Commits Q (k a))
    → Commits Q (m >>= k)
unfolding ◌>>=◌
then-Commits (ok a) next = next a
then-Commits (err e) next = rolled_back

pub if-Commits :
    {A : Type 0} {Q : A → Type 0} (b : Bool) {m k : AppResult A}
    → Commits Q m
    → Commits Q k
    → Commits Q (if b then m else k)
if-Commits true hm hk = hm
if-Commits false hm hk = hk

-- The three tables are as they were.
abbrev pub IsSamePlans : PlanDb → PlanDb → Type 0
IsSamePlans a b =
    (b.plans ≡ a.plans)
    × (b.selected_resources ≡ a.selected_resources)
    × (b.invocations ≡ a.invocations)

abbrev pub IsKept : CompletionDb → CompletionDb → Type 0
IsKept db db' = IsSamePlans db.reconcile.plan_db db'.reconcile.plan_db

same_trans : (a b c : CompletionDb) → IsKept a b → IsKept b c → IsKept a c
same_trans a b c h k = (k.0 ∙ h.0, k.1 ∙ h.1, k.2 ∙ h.2)

persist-IsKept :
    (documents : Documents) (now run p e : ℕ) (manifest : ManifestSnapshot) (db : ReconcileDb)
    → Commits
        (λ after. after.plan_db ≡ db.plan_db)
        (persist_manifest documents now run p e manifest db)
unfolding persist_manifest
persist-IsKept documents now run p e manifest db =
    then-Commits _ λ _. then-Commits _ λ nodes. then-Commits _ λ edges. committed refl

module _ (documents : Documents) (now : ℕ) (f : RunFinalization) where
  promoted_reconcile : (db : CompletionDb) → (promoted documents now f db).reconcile ≡ db.reconcile
  unfolding promote_manifest_state
  promoted_reconcile db = by_test (should_promote_manifest f.subcommand)
    where
      by_test :
          (b : Bool)
          → (if b
              then promote_manifest_state documents now f.run_id f.project_id f.environment_id
                  f.promote_base_manifest db
              else db).reconcile
            ≡ db.reconcile
      by_test true = refl
      by_test false = refl

  snapshot-IsKept :
      (manifest : Option ManifestSnapshot) (db : CompletionDb)
      → Commits (IsKept db) (with_snapshot documents now f manifest db)
  snapshot-IsKept none db = (committed (refl, refl, refl))
  snapshot-IsKept (some manifest) db =
      bind-Commits (λ after. after.plan_db ≡ db.reconcile.plan_db)
        (persist-IsKept documents now f.run_id f.project_id f.environment_id manifest db.reconcile)
        λ after same.
          let whole : (promoted documents now f (record db { reconcile = after })).reconcile.plan_db
              ≡ db.reconcile.plan_db =
            ap (λ r. r.plan_db) (promoted_reconcile (record db { reconcile = after })) ∙ same in
          committed (
            ap (λ r. r.plans) whole,
            ap (λ r. r.selected_resources) whole,
            ap (λ r. r.invocations) whole,
          )

  finalize-IsKept : (db : CompletionDb) → Commits (IsKept db) (finalize_run documents now f db)
  unfolding finalize_run rebuild_current_state_up_to
  finalize-IsKept db =
      bind-Commits (IsKept db) (snapshot-IsKept f.manifest _) λ after same. committed same

module _ (formats : Formats) (documents : Documents) (now i : ℕ) (inv : PersistenceRecord)
    (completion : ExecutionCompletion) where
  pub end_run-IsKept :
      (run : Option ℕ) (db : CompletionDb)
      → Commits (IsKept db) (end_run formats documents now i inv completion run db)
  end_run-IsKept none db = (committed (refl, refl, refl))
  end_run-IsKept (some run) db = then-Commits _ λ p. then-Commits _ λ e.
      let f = finalization formats documents now i inv completion run p e in
      bind-Commits (IsKept db) (finalize-IsKept documents now f db)
        λ after same. committed (stated run p e after same inv.updates_actual_state)
    where
      stated :
          (run p e : ℕ) (after : CompletionDb)
          → IsKept db after
          → (b : Bool)
          → IsKept db (
              if b
              then upsert_environment_actual_state_for_run now run p e
                  (is_success completion.status)
                  after
              else after)
      stated run p e after same true = same
      stated run p e after same false = same

  release-IsKept :
      (p e : ℕ) (result : Option String) (db : CompletionDb)
      → Commits (IsKept db) (apply_release_completion formats documents now p e result db)
  unfolding apply_release_completion
  release-IsKept p e result db = then-Commits _ λ metadata. then-Commits _ λ sha.
      then-Commits _ λ existing.
        if-Commits (existing.git_commit_sha == some sha) (committed (refl, refl, refl))
          (then-Commits _ λ env. (committed (refl, refl, refl)))

  project-IsKept :
      (draft : ℕ) (s : LifecycleStatus) (db : CompletionDb)
      → Commits (IsKept db) (project_validation_for documents now draft completion s db)
  project-IsKept draft succeeded db =
      then-Commits _
        λ result. then-Commits _ λ name. then-Commits _ λ branch. (committed (refl, refl, refl))
  project-IsKept draft _ db = (committed (refl, refl, refl))

  prepare-IsKept :
      (draft : ℕ) (s : LifecycleStatus) (db : CompletionDb)
      → Commits (IsKept db) (environment_prepare_for documents now draft completion s db)
  prepare-IsKept draft succeeded db = then-Commits _ λ result. (committed (refl, refl, refl))
  prepare-IsKept draft _ db = (committed (refl, refl, refl))

  validate-IsKept :
      (draft : ℕ) (s : LifecycleStatus) (db : CompletionDb)
      → Commits (IsKept db) (environment_validation_for documents now draft completion s db)
  validate-IsKept draft succeeded db =
      then-Commits _ λ result. then-Commits _ λ sha. (committed (refl, refl, refl))
  validate-IsKept draft _ db = (committed (refl, refl, refl))

  pub for_command-IsKept :
      (db : CompletionDb)
      → Commits (IsKept db) (for_command formats documents now i inv completion db)
  unfolding for_command
  for_command-IsKept db =
      if-Commits (inv.command == "release" && is_success completion.status)
        (then-Commits _ λ p. then-Commits _ λ e. release-IsKept p e completion.result db)
        (if-Commits (inv.command == "project_validate")
          (then-Commits _ λ draft. project-IsKept draft completion.status db)
          (if-Commits (inv.command == "environment_prepare")
            (then-Commits _ λ draft. prepare-IsKept draft completion.status db)
            (if-Commits (inv.command == "environment_validate")
              (then-Commits _ λ draft. validate-IsKept draft completion.status db)
              (if-Commits (inv.command == "manifest_prepare")
                (then-Commits _ λ p. then-Commits _ λ e. (committed (refl, refl, refl)))
                (committed (refl, refl, refl))))))
