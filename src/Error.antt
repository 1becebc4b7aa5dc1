-- ===== src/Error.antt =====
-- src/error.rs: the errors that the modelled code returns, with what they carry. An id that the
-- source formats into the message is kept as the id. `sqlx` stands for a failed SQL statement
-- (`AppError::Sqlx`): a broken constraint, or no row where `fetch_one` wants one.
use dbtx.Prelude.{ℕ, String, Option, none, some}

pub data AppError : Type 0 where
  sqlx : AppError
  invalid_database_value : String → String → AppError
  invocation_not_found : ℕ → AppError
  invocation_ownership_mismatch : AppError
  plan_not_found : ℕ → AppError
  plan_not_admissible : ℕ → String → AppError
  project_id_not_found : String → AppError
  environment_not_found : String → String → AppError
  environment_already_reconciled : AppError
  reconciliation_in_progress : AppError
  reconciliation_requires_commit_sha : AppError
  reconciliation_requires_baseline : AppError
  reconciliation_empty_plan : AppError
  internal : String → AppError

pub data AppResult {ℓ} (A : Type ℓ) : Type ℓ where
  ok : A → AppResult A
  err : AppError → AppResult A

-- `?`, in a transaction: an error ends it, and nothing that it did stays.
infixl 5 ◌>>=◌
unfoldable pub ◌>>=◌ {ℓ κ} :
    {A : Type ℓ} {B : Type κ} → AppResult A → (A → AppResult B) → AppResult B
ok a >>= f = f a
err e >>= f = err e

-- `ok_or_else`.
abbrev pub ok_or {ℓ} : {A : Type ℓ} → AppError → Option A → AppResult A
ok_or e none = err e
ok_or e (some a) = ok a
