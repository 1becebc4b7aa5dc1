-- ===== src/Completion/Ended.antt =====
-- What a completed invocation leaves: its row, its resources and its plan.
use dbtx.Prelude.{
  ◌&&◌, not, ℕ, String, Bool, true, false, ◌≡◌, refl, inl, inr, Option, none, some, List, [], ◌∷◌,
  nat_eq, string_eq, ap, sym, ◌∙◌, any, find, update_rows, Bool-cases, Option-cases,
}
use dbtx.Invocation.{Invocation}
use dbtx.Invocation.Queue.{has_id}
use dbtx.Invocation.Lease.{
  is_held, PersistenceRecord, persistence_of, completion_found,
  get_invocation_persistence_for_completion,
}
use dbtx.Plan.{EnvironmentRunPlan, SelectedResource, PlanDb}
use dbtx.Plan.Outcome.{complete_environment_run_plan, finished_row}
use dbtx.Plan.Lifecycle.{is_plan}
use dbtx.Reconcile.Formats.{Formats}
use dbtx.Completion.{ExecutionCompletion, Documents, CompletionDb}
use dbtx.Completion.Finalize.{is_open_of, closed_resource}
use dbtx.Completion.SideEffects.{
  completion_close_reason, apply_invocation_completion_side_effects, end_plan, close_resources,
}
use dbtx.Completion.Complete.{complete_invocation, completed_row, has_consistent_lease, end_held}
use dbtx.Completion.Keeps.{
  Commits, committed, rolled_back, bind-Commits, IsKept, end_run-IsKept, for_command-IsKept,
}

-- The plans after the completion of the plan that the invocation was for.
abbrev pub plans_after :
    ℕ → ExecutionCompletion → Option ℕ → List EnvironmentRunPlan → List EnvironmentRunPlan
plans_after now completion none plans = plans
plans_after now completion (some plan) plans =
    update_rows (is_plan plan) (finished_row now completion.status completion.error) plans

abbrev pub resources_after :
    ℕ → ℕ → ExecutionCompletion → List SelectedResource → List SelectedResource
resources_after now i completion rows =
    update_rows (is_open_of i) (closed_resource now (completion_close_reason completion.status))
      rows

-- An update of a row that is not there.
no_row :
    {A : Type 0} (p : A → Bool) (f : A → A) (xs : List A)
    → find p xs ≡ none
    → update_rows p f xs ≡ xs
no_row p f [] h = refl
no_row p f (x ∷ xs) h = elim (Bool-cases (p x)) [
  | inl hit ↦ absurd (cc (rw hit at h))
  | inr miss ↦ rw miss (ap (λ ys. x ∷ ys) (no_row p f xs (rw miss at h)))
]

module _ (now i : ℕ) where
  plan_ended :
      (plan : ℕ) (completion : ExecutionCompletion) (db : PlanDb)
      → let after = complete_environment_run_plan now plan completion.status completion.error db in
        (after.plans ≡ plans_after now completion (some plan) db.plans)
        × (after.selected_resources ≡ db.selected_resources)
        × (after.invocations ≡ db.invocations)
  unfolding complete_environment_run_plan
  plan_ended plan completion db = elim (Option-cases (find (is_plan plan) db.plans)) [
    | inl none' ↦ rw none' (sym (no_row _ _ _ none'), refl, refl)
    | inr (p, at) ↦ rw at (refl, refl, refl)
  ]

  -- The tables after the side effects for a plan.
  abbrev pub HasEnded : ExecutionCompletion → Option ℕ → PlanDb → PlanDb → Type 0
  HasEnded completion plan db db' =
      (db'.plans ≡ plans_after now completion plan db.plans)
      × (db'.selected_resources ≡ resources_after now i completion db.selected_resources)
      × (db'.invocations ≡ db.invocations)

module _ (formats : Formats) (documents : Documents) (now i : ℕ) where
  last_steps :
      (inv : PersistenceRecord) (completion : ExecutionCompletion) (plan : Option ℕ)
      (db after : CompletionDb)
      → IsKept db after
      → HasEnded now i completion plan db.reconcile.plan_db
          (end_plan formats documents now i inv completion plan
            (close_resources formats documents now i inv completion after)).reconcile.plan_db
  last_steps inv completion none db after (same, same', same'') =
      (same, ap (resources_after now i completion) same', same'')
  last_steps inv completion (some plan) db after (same, same', same'') =
      let closed = close_resources formats documents now i inv completion after in
      let (h, h', h'') = plan_ended now i plan completion closed.reconcile.plan_db in
      (
        h ∙ ap (plans_after now completion (some plan)) same,
        h' ∙ ap (resources_after now i completion) same',
        h'' ∙ same'',
      )

  pub side_effects-HasEnded :
      (inv : PersistenceRecord) (completion : ExecutionCompletion) (db : CompletionDb)
      → Commits
          (λ db'. HasEnded now i completion inv.plan_id db.reconcile.plan_db db'.reconcile.plan_db)
          (apply_invocation_completion_side_effects formats documents now i inv completion db)
  unfolding apply_invocation_completion_side_effects
  side_effects-HasEnded inv completion db =
      bind-Commits (IsKept db) (end_run-IsKept formats documents now i inv completion inv.run_id db)
        λ ended k.
          bind-Commits (IsKept ended)
            (for_command-IsKept formats documents now i inv completion ended)
            λ after k'.
              committed (
                last_steps inv completion inv.plan_id db after (k'.0 ∙ k.0, k'.1 ∙ k.1, k'.2 ∙ k.2))

  -- What a completion by the holder of the lease leaves.
  abbrev pub IsCompletedBy : String → ℕ → ExecutionCompletion → PlanDb → PlanDb → Type 0
  IsCompletedBy worker_id token completion db db' =
      (r : Invocation) × (find (is_held i worker_id token) db.invocations ≡ some r)
      × (db'.invocations
          ≡ update_rows (is_held i worker_id token) (completed_row now completion) db.invocations)
      × (db'.plans ≡ plans_after now completion r.plan_id db.plans)
      × (db'.selected_resources ≡ resources_after now i completion db.selected_resources)

  abbrev pub breaks_check : String → ℕ → ExecutionCompletion → Invocation → Bool
  breaks_check worker_id token completion r =
      is_held i worker_id token r && not (has_consistent_lease (completed_row now completion r))

  found_row :
      (exists : Bool) (o : Option Invocation)
      → Commits
          (λ inv. (r : Invocation) × (o ≡ some r) × (inv ≡ persistence_of r))
          (completion_found i exists o)
  found_row true none = rolled_back
  found_row false none = rolled_back
  found_row exists (some r) = committed (r, refl, refl)

  -- When a worker's completion of an invocation is committed, whatever the command was, the worker held
  -- the invocation with that token, the row has the completion's outcome and no token, the
  -- plan that it was for is ended by that outcome, every open resource that it selected is closed, and
  -- no other row of the three tables is changed.
  pub completion_effects :
      (worker_id : String) (token : ℕ) (completion : ExecutionCompletion) (db : CompletionDb)
      → Commits
          (λ db'.
            IsCompletedBy worker_id token completion db.reconcile.plan_db db'.reconcile.plan_db)
          (complete_invocation formats documents now i worker_id token completion db)
  unfolding complete_invocation get_invocation_persistence_for_completion
  completion_effects worker_id token completion db =
      bind-Commits
        (λ inv.
          (r : Invocation) × (find (is_held i worker_id token) db.reconcile.plan_db.invocations
            ≡ some r)
          × (inv ≡ persistence_of r))
        (found_row (any (has_id i) db.reconcile.plan_db.invocations)
          (find (is_held i worker_id token) db.reconcile.plan_db.invocations))
        λ inv (r, at, same).
          bind-Commits
            (λ db'.
              HasEnded now i completion inv.plan_id db.reconcile.plan_db db'.reconcile.plan_db)
            (side_effects-HasEnded inv completion db) λ after h. ended r inv after at same h
    where
      ended :
          (r : Invocation) (inv : PersistenceRecord) (after : CompletionDb)
          → find (is_held i worker_id token) db.reconcile.plan_db.invocations ≡ some r
          → inv ≡ persistence_of r
          → HasEnded now i completion inv.plan_id db.reconcile.plan_db after.reconcile.plan_db
          → Commits
              (λ db'.
                IsCompletedBy worker_id token completion db.reconcile.plan_db db'.reconcile.plan_db)
              (end_held formats documents now i worker_id token completion after)
      ended r inv after at same (h, h', h'') =
          elim (Bool-cases (any (is_held i worker_id token) after.reconcile.plan_db.invocations)) [
            | inl held ↦
                rw held
                  (elim (Bool-cases (
                    any (breaks_check worker_id token completion)
                      after.reconcile.plan_db.invocations)) [
                        | inl broken ↦ rw broken rolled_back
                        | inr kept ↦ rw kept (
                            committed (
                              r,
                              at,
                              ap
                                  (update_rows (is_held i worker_id token)
                                    (completed_row now completion))
                                  h'',
                              h
                                  ∙ ap
                                      (λ (x : PersistenceRecord).
                                        plans_after now completion x.plan_id
                                          db.reconcile.plan_db.plans)
                                      same,
                              h',
                            ))
                      ])
            | inr lost ↦ rw lost rolled_back
          ]
