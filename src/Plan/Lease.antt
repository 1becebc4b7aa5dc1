-- ===== src/Plan/Lease.antt =====
-- src/db/reconciliation.rs: `acquire_environment_reconcile_lease` and
-- `release_environment_reconcile_lease`. The duration is given in microseconds.
use dbtx.Prelude.{
  ℕ, ◌+◌, String, Bool, true, false, ◌&&◌, ◌||◌, Option, none, some, List, [], ◌∷◌, ◌++◌, ◌==◌,
  nat_eq, string_eq, ltb, if◌then◌else◌, find, update_rows, delete_rows,
}
use dbtx.Plan.{ReconcileLease}

abbrev pub is_of_environment : ℕ → ReconcileLease → Bool
is_of_environment environment_id l = l.environment_id == environment_id

-- The `WHERE` of the `DO UPDATE`.
abbrev pub may_take : ℕ → String → ReconcileLease → Bool
may_take now owner l = ltb l.leased_until now || l.owner == owner

abbrev pub new_lease : ℕ → ℕ → String → ℕ → ReconcileLease
new_lease now environment_id owner duration = record {
  environment_id = environment_id;
  owner = owner;
  leased_until = now + duration;
  updated_at = now;
}

abbrev pub take_over : ℕ → String → ℕ → ReconcileLease → ReconcileLease
take_over now owner duration l = record l {
  owner = owner;
  leased_until = now + duration;
  updated_at = now;
}

abbrev pub acquire_found :
    ℕ → ℕ → String → ℕ → Option ReconcileLease → List ReconcileLease → Bool × List ReconcileLease
acquire_found now environment_id owner duration none leases =
    (true, leases ++ new_lease now environment_id owner duration ∷ [])
acquire_found now environment_id owner duration (some l) leases =
    if may_take now owner l
    then (
      true,
      update_rows (is_of_environment environment_id) (take_over now owner duration) leases,
    )
    else (false, leases)

-- Returns whether a row came back from `RETURNING`.
unfoldable pub acquire_environment_reconcile_lease :
    ℕ → ℕ → String → ℕ → List ReconcileLease → Bool × List ReconcileLease
acquire_environment_reconcile_lease now environment_id owner duration leases =
    acquire_found now environment_id owner duration (find (is_of_environment environment_id) leases)
      leases

abbrev pub is_lease_of : ℕ → String → ReconcileLease → Bool
is_lease_of environment_id owner l = is_of_environment environment_id l && l.owner == owner

unfoldable pub release_environment_reconcile_lease :
    ℕ → String → List ReconcileLease → List ReconcileLease
release_environment_reconcile_lease environment_id owner =
    delete_rows (is_lease_of environment_id owner)
