-- ===== src/Reconcile/Formats.antt =====
-- The text formats of other packages that the services use: `Uuid` and `chrono` printing, and
-- JSON documents of `serde_json`. A document is its text, as in Invocation.
use dbtx.Prelude.{ℕ, String, Bool, Option, List}

-- The values that the source puts under a key of `serde_json::json!`.
pub data JsonField : Type 0 where
  flag : Bool → JsonField
  text : String → JsonField
  opt_text : Option String → JsonField
  number : ℕ → JsonField
  id : ℕ → JsonField
  numbers : List ℕ → JsonField
  texts : List String → JsonField
  document : String → JsonField

pub record Formats : Type 0 where
  -- `Uuid::to_string`, `DateTime::to_rfc3339`.
  pub uuid_text : ℕ → String
  pub rfc3339 : ℕ → String
  -- `json!({ … })`.
  pub object : List (String × JsonField) → String
  -- `document[key] = Value::String(text)`.
  pub with_text : String → String → String → String
  -- The `as_i64` and `as_str` items of the array under a key: `with_text` keeps other keys.
  pub numbers_at : String → String → List ℕ
  pub texts_at : String → String → List String
