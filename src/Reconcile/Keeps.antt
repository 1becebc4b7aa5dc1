-- ===== src/Reconcile/Keeps.antt =====
-- What holds of the database however a call ends, and how that goes through a sequence of calls.
use dbtx.Prelude.{◌≡◌, refl, Option, none, some, Bool, true, false, if◌then◌else◌}
use dbtx.Error.{AppResult, ok, err}
use dbtx.Reconcile.{ReconcileDb}
use dbtx.Reconcile.Action.{
  Outcome, returned, failed, endless, Action, tries, from_result, from_fuel, continue_with, ◌>>=◌,
}

module _ (P : ReconcileDb → Type 0) where
  abbrev pub Holds : {A : Type 0} → Outcome A → Type 0
  Holds (returned a db) = P db
  Holds (failed e db) = P db
  Holds endless = Unit

  abbrev pub Keeps : {A : Type 0} → Action A → Type 0
  Keeps m = (db : ReconcileDb) → P db → Holds (m db)

  continued :
      {A B : Type 0} (k : A → Action B)
      → ((a : A) → Keeps (k a))
      → (o : Outcome A) → Holds o
      → Holds (continue_with k o)
  continued k next (returned a db) h = next a db h
  continued k next (failed e db) h = h
  continued k next endless h = tt

  pub bind-Keeps :
      {A B : Type 0} (m : Action A) (k : A → Action B)
      → Keeps m
      → ((a : A) → Keeps (k a))
      → Keeps (m >>= k)
  bind-Keeps m k first next db h = continued k next (m db) (first db h)

  pub from_result-Keeps : {A : Type 0} (r : AppResult A) → Keeps (from_result r)
  from_result-Keeps (ok a) db h = h
  from_result-Keeps (err e) db h = h

  pub tries-Keeps : {A : Type 0} (f : ReconcileDb → AppResult A) → Keeps (tries f)
  tries-Keeps f db h = from_result-Keeps (f db) db h

  pub from_fuel-Keeps :
      {A : Type 0} (f : ReconcileDb → Option A) (db : ReconcileDb)
      → P db
      → Holds (from_fuel (f db) db)
  from_fuel-Keeps f db h = by_fuel (f db)
    where
      by_fuel : {A : Type 0} (o : Option A) → Holds (from_fuel o db)
      by_fuel none = tt
      by_fuel (some a) = h

  pub if-Keeps :
      {A : Type 0} (b : Bool) (m k : Action A) → Keeps m → Keeps k → Keeps (if b then m else k)
  if-Keeps true m k hm hk = hm
  if-Keeps false m k hm hk = hk

-- What holds of the result and the database when a call returns.
abbrev pub Gives : {A : Type 0} → (A → ReconcileDb → Type 0) → Outcome A → Type 0
Gives Q (returned a db) = Q a db
Gives Q (failed e db) = Unit
Gives Q endless = Unit

pub returned-Gives :
    {A : Type 0} (P : ReconcileDb → Type 0) (o : Outcome A) → Holds P o → Gives (λ a db. P db) o
returned-Gives P (returned a db) h = h
returned-Gives P (failed e db) h = tt
returned-Gives P endless h = tt

module _ {A B : Type 0} (R : A → ReconcileDb → Type 0) (Q : B → ReconcileDb → Type 0) where
  pub bind-Gives :
      (k : A → Action B) (o : Outcome A)
      → Gives R o
      → ((a : A) (db : ReconcileDb) → R a db → Gives Q (k a db))
      → Gives Q (continue_with k o)
  bind-Gives k (returned a db) h next = next a db h
  bind-Gives k (failed e db) h next = tt
  bind-Gives k endless h next = tt

pub tries-Gives :
    {A : Type 0} (f : ReconcileDb → AppResult A) (db : ReconcileDb)
    → Gives (λ a db'. (f db ≡ ok a) × (db' ≡ db)) (tries f db)
tries-Gives {A = A} f db = by_result (f db)
  where
    by_result : (r : AppResult A) → Gives (λ a db'. (r ≡ ok a) × (db' ≡ db)) (from_result r db)
    by_result (ok a) = (refl, refl)
    by_result (err e) = tt

pub anything-Gives : {A : Type 0} (o : Outcome A) → Gives (λ a db. Unit) o
anything-Gives (returned a db) = tt
anything-Gives (failed e db) = tt
anything-Gives endless = tt

pub weaken-Gives :
    {A : Type 0} (Q Q' : A → ReconcileDb → Type 0) (o : Outcome A)
    → ((a : A) (db : ReconcileDb) → Q a db → Q' a db)
    → Gives Q o
    → Gives Q' o
weaken-Gives Q Q' (returned a db) more h = more a db h
weaken-Gives Q Q' (failed e db) more h = tt
weaken-Gives Q Q' endless more h = tt
