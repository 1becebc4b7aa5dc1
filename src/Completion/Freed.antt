-- ===== src/Completion/Freed.antt =====
-- A completed invocation is out of the way, and is completed once.
use mathlib.Core.Path.{subst}
use dbtx.Prelude.{
  ℕ, String, true, false, ◌≡◌, refl, inl, inr, none, List, [], ◌∷◌, nat_eq, string_eq, option_eq,
  arith, any, find, update_rows, Elem, Elem-update_rows, Elem-of_any, any_of_Elem, find-eq-some,
  any-update_rows, Bool-cases, Option-cases, ap, ◌∙◌,
}
use dbtx.Error.{err, invocation_ownership_mismatch, ◌>>=◌}
use dbtx.Invocation.{Invocation}
use dbtx.Invocation.Queue.{has_id}
use dbtx.Invocation.Lease.{is_held, get_invocation_persistence_for_completion}
use dbtx.Plan.{SelectedResource, PlanDb}
use dbtx.Plan.Conflict.{is_in_progress, list_active_conflicting_invocations}
use dbtx.Plan.Overlap.{conflict_list}
use dbtx.Plan.Progress.{plan_at}
use dbtx.Reconcile.Formats.{Formats}
use dbtx.Completion.{ExecutionCompletion, Documents, CompletionDb}
use dbtx.Completion.Finalize.{is_open_of, closed_resource}
use dbtx.Completion.SideEffects.{completion_close_reason}
use dbtx.Completion.Complete.{complete_invocation, completed_row}
use dbtx.Completion.Keeps.{Commits, weaken-Commits}
use dbtx.Completion.Ended.{resources_after, IsCompletedBy, completion_effects}

-- The id is of one row.
abbrev pub IsOneRow : ℕ → PlanDb → Type 0
IsOneRow i db =
    (r r' : Invocation)
    → Elem r db.invocations
    → Elem r' db.invocations
    → has_id i r ≡ true
    → has_id i r' ≡ true
    → r ≡ r'

module _ (formats : Formats) (documents : Documents) (now i : ℕ) (worker_id : String) (token : ℕ)
    (completion : ExecutionCompletion) where
  none_open :
      (s : SelectedResource) (rows : List SelectedResource)
      → Elem s (resources_after now i completion rows)
      → s.finished_at ≡ none
      → i ≡ s.invocation_id
      → ⊥
  none_open s rows m unfinished mine =
      let (x, there, same) =
        Elem-update_rows (is_open_of i)
          (closed_resource now (completion_close_reason completion.status)) rows s m in
      elim (Bool-cases (is_open_of i x)) [
        | inl open' ↦ closed_is_finished x s unfinished (rw open' at same)
        | inr shut ↦ still_open x s shut unfinished mine (rw shut at same)
      ]
    where
      closed_is_finished :
          (x s : SelectedResource)
          → s.finished_at ≡ none
          → s ≡ closed_resource now (completion_close_reason completion.status) x
          → ⊥
      closed_is_finished x s unfinished same = ground arith

      still_open :
          (x s : SelectedResource)
          → is_open_of i x ≡ false
          → s.finished_at ≡ none
          → i ≡ s.invocation_id
          → s ≡ x
          → ⊥
      still_open x s shut unfinished mine same = ground arith

  held_has_id : (x : Invocation) → is_held i worker_id token x ≡ true → has_id i x ≡ true
  held_has_id x hit = ground arith

  none_in_progress :
      (db db' : PlanDb)
      → IsOneRow i db
      → IsCompletedBy formats documents now i worker_id token completion db db'
      → any (is_in_progress i) db'.invocations ≡ true
      → ⊥
  none_in_progress db db' one (r, at, rows, _, _) busy =
      let held = is_held i worker_id token in
      let (inv, m, hit) =
        Elem-of_any (is_in_progress i)
          (update_rows held (completed_row now completion) db.invocations) (rw rows at busy) in
      let (x, there, same) =
        Elem-update_rows held (completed_row now completion) db.invocations inv m in
      let (m', taken) = find-eq-some held db.invocations at in
      elim (Bool-cases (held x)) [
        | inl mine ↦ completed_is_over x inv hit (rw mine at same)
        | inr other ↦
            let same' : inv ≡ x = rw other at same in
            let its : has_id i x ≡ true = progress_has_id x (rw same' at hit) in
            let whole : x ≡ r = one x r there m' its (held_has_id r taken) in
            absurd (cc (subst (λ y. held y ≡ false) whole other, taken))
      ]
    where
      completed_is_over :
          (x inv : Invocation)
          → is_in_progress i inv ≡ true
          → inv ≡ completed_row now completion x
          → ⊥
      completed_is_over x inv hit same = ground arith

      progress_has_id : (x : Invocation) → is_in_progress i x ≡ true → has_id i x ≡ true
      progress_has_id x hit = ground arith

  not_listed :
      (db db' : PlanDb)
      → IsOneRow i db
      → IsCompletedBy formats documents now i worker_id token completion db db'
      → (plan : ℕ) → Elem i (list_active_conflicting_invocations plan db')
      → ⊥
  unfolding list_active_conflicting_invocations
  not_listed db db' one done plan m = elim (Option-cases (plan_at plan db'.plans)) [
    | inl none' ↦ rw none' at m
    | inr (p, at) ↦ elim (((conflict_list plan db' p at).1 i).0 m) [
      | inl (s, there, _, _, _, unfinished, mine) ↦
          none_open s db.selected_resources (subst (λ rows. Elem s rows) (done.4) there) unfinished
            mine
      | inr (o, _, _, _, _, _, _, busy, _) ↦ none_in_progress db db' one done busy
    ]
  ]

  -- When a completion is committed and the id is of one row, the invocation conflicts with no plan any
  -- more, whatever outcome it had and whatever its command was.
  pub completion_frees :
      (db : CompletionDb)
      → IsOneRow i db.reconcile.plan_db
      → Commits
          (λ db'.
            (plan : ℕ)
            → Elem i (list_active_conflicting_invocations plan db'.reconcile.plan_db)
            → ⊥)
          (complete_invocation formats documents now i worker_id token completion db)
  completion_frees db one =
      weaken-Commits _ (λ db' done. not_listed db.reconcile.plan_db db'.reconcile.plan_db one done)
        (completion_effects formats documents now i worker_id token completion db)

  not_held_now :
      (rows : List Invocation)
      → find
          (is_held i worker_id token)
          (update_rows (is_held i worker_id token) (completed_row now completion) rows)
        ≡ none
  not_held_now [] = refl
  not_held_now (x ∷ rest) = elim (Bool-cases (is_held i worker_id token x)) [
    | inl mine ↦ rw mine (rw (given_back x) (not_held_now rest))
    | inr other ↦ rw other (rw other (not_held_now rest))
  ]
    where
      given_back :
          (x : Invocation) → is_held i worker_id token (completed_row now completion x) ≡ false
      given_back x = ground arith

  -- After a completion that is committed, a second one with the same worker and token is refused as
  -- one of an invocation that the worker does not hold, at any time and with any outcome.
  pub completion_once :
      (db : CompletionDb)
      → Commits
          (λ db'.
            (later : ℕ) (again : ExecutionCompletion)
            → complete_invocation formats documents later i worker_id token again db'
              ≡ err invocation_ownership_mismatch)
          (complete_invocation formats documents now i worker_id token completion db)
  unfolding complete_invocation get_invocation_persistence_for_completion ◌>>=◌
  completion_once db =
      weaken-Commits _ (λ db' done later again. refused db' done later again)
        (completion_effects formats documents now i worker_id token completion db)
    where
      refused :
          (db' : CompletionDb)
          → IsCompletedBy formats documents now i worker_id token completion db.reconcile.plan_db
              db'.reconcile.plan_db
          → (later : ℕ) (again : ExecutionCompletion)
          → complete_invocation formats documents later i worker_id token again db'
            ≡ err invocation_ownership_mismatch
      refused db' (r, at, rows, _, _) later again =
          let held = is_held i worker_id token in
          let (m, taken) = find-eq-some held db.reconcile.plan_db.invocations at in
          let known : any (has_id i) db'.reconcile.plan_db.invocations ≡ true =
            ap (any (has_id i)) rows
            ∙ any-update_rows (has_id i) held (completed_row now completion)
                db.reconcile.plan_db.invocations (λ a. refl)
            ∙ any_of_Elem (has_id i) db.reconcile.plan_db.invocations r m (held_has_id r taken) in
          let gone : find held db'.reconcile.plan_db.invocations ≡ none =
            ap (find held) rows ∙ not_held_now db.reconcile.plan_db.invocations in
          rw (known, gone) refl
