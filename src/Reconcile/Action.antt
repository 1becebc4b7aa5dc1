-- ===== src/Reconcile/Action.antt =====
-- A call of a service, which is a sequence of database calls that are committed one by one: what was
-- written before an error stays written. `endless` is a call whose recursion over ancestors does not
-- come back, see Planning.
use dbtx.Prelude.{Option, none, some}
use dbtx.Error.{AppError, AppResult, ok, err}
use dbtx.Plan.{PlanDb}
use dbtx.Reconcile.{ReconcileDb}

pub data Outcome (A : Type 0) : Type 0 where
  returned : A → ReconcileDb → Outcome A
  failed : AppError → ReconcileDb → Outcome A
  endless : Outcome A

abbrev pub Action : Type 0 → Type 0
Action A = ReconcileDb → Outcome A

module _ {A : Type 0} where
  abbrev pub give : A → Action A
  give = returned

  abbrev pub throw : AppError → Action A
  throw = failed

  -- A query.
  abbrev pub gets : (ReconcileDb → A) → Action A
  gets f db = returned (f db) db

  abbrev pub from_result : AppResult A → Action A
  from_result (ok a) = returned a
  from_result (err e) = failed e

  -- A query that can fail.
  abbrev pub tries : (ReconcileDb → AppResult A) → Action A
  tries f db = from_result (f db) db

  abbrev pub from_fuel : Option A → Action A
  from_fuel none db = endless
  from_fuel (some a) db = returned a db

  abbrev pub with_plan_db : AppResult (A × PlanDb) → Action A
  with_plan_db (ok (a, plan_db)) db = returned a (record db { plan_db = plan_db })
  with_plan_db (err e) db = failed e db

  -- A statement on the tables of Plan, which changes nothing when it fails.
  abbrev pub on_plans : (PlanDb → AppResult (A × PlanDb)) → Action A
  on_plans f db = with_plan_db (f db.plan_db) db

module _ {A B : Type 0} where
  abbrev pub continue_with : (A → Action B) → Outcome A → Outcome B
  continue_with k (returned a db) = k a db
  continue_with k (failed e db) = failed e db
  continue_with k endless = endless

  infixl 5 ◌>>=◌
  abbrev pub ◌>>=◌ : Action A → (A → Action B) → Action B
  ◌>>=◌ m k db = continue_with k (m db)
