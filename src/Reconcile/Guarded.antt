-- ===== src/Reconcile/Guarded.antt =====
-- A service call under the reconcile lease.
use dbtx.Prelude.{
  ℕ, ◌+◌, String, Bool, true, false, ◌≡◌, refl, inl, inr, Option, none, some, List, [], ◌∷◌, any,
  find, delete_rows, arith, Bool-cases,
}
use dbtx.Error.{reconciliation_in_progress}
use dbtx.Plan.{ReconcileLease}
use dbtx.Plan.Lease.{
  is_of_environment, is_lease_of, may_take, acquire_found, acquire_environment_reconcile_lease,
  release_environment_reconcile_lease,
}
use dbtx.Plan.Exclusion.{acquire_holds}
use dbtx.Reconcile.{ReconcileDb}
use dbtx.Reconcile.Action.{Outcome, returned, failed, endless, Action, continue_with}
use dbtx.Reconcile.Keeps.{Holds}
use dbtx.Reconcile.Admission.{
  reconcile_lease_duration, with_leases, acquired, acquire_reconcile_lease, release_reconcile_lease,
  then_release, under_lease,
}

-- The environment's lease is not the owner's.
abbrev pub IsReleased : ℕ → String → ReconcileDb → Type 0
IsReleased e owner db = any (is_lease_of e owner) db.plan_db.leases ≡ false

none_after_delete :
    (q : ReconcileLease → Bool) (leases : List ReconcileLease)
    → any q (delete_rows q leases) ≡ false
none_after_delete q [] = refl
none_after_delete q (l ∷ rest) = ground (arith, none_after_delete q rest)

then_release-IsReleased :
    {A : Type 0} (e : ℕ) (owner : String) (o : Outcome A)
    → Holds (IsReleased e owner) (then_release e owner o)
unfolding then_release release_reconcile_lease release_environment_reconcile_lease
then_release-IsReleased e owner (returned a db) =
    none_after_delete (is_lease_of e owner) db.plan_db.leases
then_release-IsReleased e owner (failed x db) =
    none_after_delete (is_lease_of e owner) db.plan_db.leases
then_release-IsReleased e owner endless = tt

refused_is_same :
    (now e : ℕ) (owner : String) (d : ℕ) (leases : List ReconcileLease)
    → (acquire_environment_reconcile_lease now e owner d leases).0 ≡ false
    → (acquire_environment_reconcile_lease now e owner d leases).1 ≡ leases
unfolding acquire_environment_reconcile_lease
refused_is_same now e owner d leases h = by_row (find (is_of_environment e) leases) h
  where
    by_row :
        (o : Option ReconcileLease)
        → (acquire_found now e owner d o leases).0 ≡ false
        → (acquire_found now e owner d o leases).1 ≡ leases
    by_row none h = absurd (cc h)
    by_row (some l) h = elim (Bool-cases (may_take now owner l)) [
      | inl yes' ↦ absurd (cc (rw yes' at h))
      | inr no' ↦ rw no' refl
    ]

by_answer :
    {A : Type 0} (now e : ℕ) (owner : String) (m : Action A) (db : ReconcileDb)
    (answer : Bool × List ReconcileLease)
    → (answer.0 ≡ false → answer.1 ≡ db.plan_db.leases)
    → (answer.0 ≡ true
        → (l : ReconcileLease) × (find (is_of_environment e) answer.1 ≡ some l)
          × (l.owner ≡ owner)
          × (l.leased_until ≡ now + reconcile_lease_duration))
    → (let o = continue_with (λ _ db'. then_release e owner (m db')) (acquired answer db) in
        (answer.0 ≡ false → o ≡ failed reconciliation_in_progress db)
        × (answer.0 ≡ true
            → (o ≡ then_release e owner (m (with_leases answer.1 db)))
              × ((l : ReconcileLease) × (find (is_of_environment e) answer.1 ≡ some l)
                  × (l.owner ≡ owner)
                  × (l.leased_until ≡ now + reconcile_lease_duration))
              × Holds (IsReleased e owner) o))
by_answer now e owner m db (true, leases) same held = (
  λ h. absurd (cc h),
  λ h. (refl, held refl, then_release-IsReleased e owner (m (with_leases leases db))),
)
by_answer now e owner m db (false, leases) same held =
    (λ h. rw (same refl) refl, λ h. absurd (cc h))

-- A call under the reconcile lease of an environment. When the lease is refused, the call fails as in
-- progress and changes nothing. When it is granted, the body runs with the lease held by the caller
-- for 30 seconds, and however the body ends, the lease is the caller's no more.
pub lease_guards_call :
    {A : Type 0} (now e : ℕ) (owner : String) (m : Action A) (db : ReconcileDb)
    → (let answer =
          acquire_environment_reconcile_lease now e owner reconcile_lease_duration
            db.plan_db.leases in
        (answer.0 ≡ false → under_lease now e owner m db ≡ failed reconciliation_in_progress db)
        × (answer.0 ≡ true
            → (under_lease now e owner m db ≡ then_release e owner (m (with_leases answer.1 db)))
              × ((l : ReconcileLease) × (find (is_of_environment e) answer.1 ≡ some l)
                  × (l.owner ≡ owner)
                  × (l.leased_until ≡ now + reconcile_lease_duration))
              × Holds (IsReleased e owner) (under_lease now e owner m db)))
unfolding under_lease acquire_reconcile_lease
lease_guards_call now e owner m db =
    let d = reconcile_lease_duration in
    let answer = acquire_environment_reconcile_lease now e owner d db.plan_db.leases in
    by_answer now e owner m db answer (refused_is_same now e owner d db.plan_db.leases)
      (acquire_holds now e owner d db.plan_db.leases)
