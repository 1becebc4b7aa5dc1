-- ===== src/Completion/Total.antt =====
-- Completions that are committed.
use mathlib.Core.Path.{subst}
use dbtx.Prelude.{
  List, any-false_of_Elem, ℕ, String, Bool, true, false, ◌≡◌, refl, inl, inr, ◌⊎◌, Option, none,
  some, string_eq, arith, any, find, find-eq-some, any_of_Elem, ◌||◌, ◌==◌,
}
use dbtx.Error.{ok, ◌>>=◌}
use dbtx.Invocation.{Invocation, is_running}
use dbtx.Invocation.Lease.{
  is_held, PersistenceRecord, persistence_of, get_invocation_persistence_for_completion,
}
use dbtx.Reconcile.Formats.{Formats}
use dbtx.Completion.{ExecutionCompletion, Documents, CompletionDb}
use dbtx.Completion.Finalize.{finalize_run}
use dbtx.Completion.SideEffects.{apply_invocation_completion_side_effects, end_run, for_command}
use dbtx.Completion.Complete.{complete_invocation}
use dbtx.Completion.Keeps.{Commits, committed}
use dbtx.Completion.Ended.{
  IsCompletedBy, HasEnded, breaks_check, side_effects-HasEnded, completion_effects,
}

-- The commands that have a step of their own in a completion.
abbrev pub has_own_step : String → Bool
has_own_step c =
    c == "release"
    || c == "project_validate"
    || c == "environment_prepare"
    || c == "environment_validate"
    || c == "manifest_prepare"

-- There is no run to end, or its scope is known and no manifest comes with it.
abbrev pub CanEnd : PersistenceRecord → ExecutionCompletion → Type 0
CanEnd inv completion =
    (inv.run_id ≡ none)
    ⊎ ((p : ℕ) × (e : ℕ) × (inv.project_id ≡ some p)
        × (inv.environment_id ≡ some e)
        × (completion.manifest ≡ none))

of_committed : {A : Type 0} {Q : A → Type 0} {a : A} → Commits Q (ok a) → Q a
of_committed (committed h) = h

module _ (formats : Formats) (documents : Documents) (now i : ℕ) where
  no_step :
      (inv : PersistenceRecord) (completion : ExecutionCompletion) (db : CompletionDb)
      → has_own_step inv.command ≡ false
      → for_command formats documents now i inv completion db ≡ ok db
  unfolding for_command
  no_step inv completion db h =
      let h1 : (inv.command == "release") ≡ false = ground (arith, h) in
      let h2 : (inv.command == "project_validate") ≡ false = ground (arith, h) in
      let h3 : (inv.command == "environment_prepare") ≡ false = ground (arith, h) in
      let h4 : (inv.command == "environment_validate") ≡ false = ground (arith, h) in
      let h5 : (inv.command == "manifest_prepare") ≡ false = ground (arith, h) in
      rw h1 (rw h2 (rw h3 (rw h4 (rw h5 refl))))

  run_ends :
      (inv : PersistenceRecord) (completion : ExecutionCompletion) (db : CompletionDb)
      → CanEnd inv completion
      → (ended : CompletionDb) × (end_run formats documents now i inv completion inv.run_id db
          ≡ ok ended)
  unfolding finalize_run ◌>>=◌
  run_ends inv completion db (inl h) = (db, rw h refl)
  run_ends inv completion db (inr (p, e, hp, he, hm)) = go inv.run_id
    where
      go :
          (run : Option ℕ)
          → (ended : CompletionDb) × (end_run formats documents now i inv completion run db
              ≡ ok ended)
      go none = (db, refl)
      go (some run) = rw hp (rw he (rw hm (_, refl)))

  side_effects_return :
      (inv : PersistenceRecord) (completion : ExecutionCompletion) (db : CompletionDb)
      → has_own_step inv.command ≡ false
      → CanEnd inv completion
      → (after : CompletionDb) × (apply_invocation_completion_side_effects formats documents now i
            inv completion db
          ≡ ok after)
  unfolding apply_invocation_completion_side_effects ◌>>=◌
  side_effects_return inv completion db plain can =
      let (ended, h) = run_ends inv completion db can in
      rw h (rw (no_step inv completion ended plain) (_, refl))

  -- A completion with a terminal status by the worker that holds the invocation is committed, when its
  -- command is none with a step of its own and there is no run to end or the run comes with
  -- its scope and without a manifest. What it leaves is the completed row, the ended plan and the closed resources.
  pub completion_commits :
      (worker_id : String) (token : ℕ) (completion : ExecutionCompletion) (db : CompletionDb)
      (r : Invocation)
      → find (is_held i worker_id token) db.reconcile.plan_db.invocations ≡ some r
      → is_running completion.status ≡ false
      → has_own_step r.command ≡ false
      → CanEnd (persistence_of r) completion
      → (db' : CompletionDb) × (complete_invocation formats documents now i worker_id token
            completion db
          ≡ ok db')
        × IsCompletedBy formats documents now i worker_id token completion db.reconcile.plan_db
            db'.reconcile.plan_db
  unfolding complete_invocation get_invocation_persistence_for_completion ◌>>=◌
  completion_commits worker_id token completion db r held over plain can =
      let (after, h) = side_effects_return (persistence_of r) completion db plain can in
      let test = is_held i worker_id token in
      let (_, _, kept) = of_committed (
        subst
          (Commits
            (λ x. HasEnded now i completion r.plan_id db.reconcile.plan_db x.reconcile.plan_db))
          h (side_effects-HasEnded formats documents now i (persistence_of r) completion db)) in
      let (there, own) = find-eq-some test db.reconcile.plan_db.invocations held in
      let still : any test after.reconcile.plan_db.invocations ≡ true =
        rw kept (any_of_Elem test db.reconcile.plan_db.invocations r there own) in
      let (db', returned) = returns after h still in
      (
        db',
        returned,
        of_committed (
            subst
              (Commits (λ x.
                IsCompletedBy formats documents now i worker_id token completion
                  db.reconcile.plan_db x.reconcile.plan_db))
              returned (completion_effects formats documents now i worker_id token completion db)),
      )
    where
      none_broken :
          (rows : List Invocation)
          → any (breaks_check formats documents now i worker_id token completion) rows ≡ false
      none_broken rows =
          any-false_of_Elem (breaks_check formats documents now i worker_id token completion) rows
            λ x m. ground (arith, over)

      returns :
          (after : CompletionDb)
          → apply_invocation_completion_side_effects formats documents now i
              (persistence_of r)
              completion
              db
            ≡ ok after
          → any (is_held i worker_id token) after.reconcile.plan_db.invocations ≡ true
          → (db' : CompletionDb) × (complete_invocation formats documents now i worker_id token
                completion db
              ≡ ok db')
      returns after h still =
          rw held (rw h (rw still (rw (none_broken after.reconcile.plan_db.invocations) (_, refl))))
