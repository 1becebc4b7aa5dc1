-- ===== src/Reconcile/Identity.antt =====
-- src/services/reconcile_identity.rs: what a reconciliation was asked to do, as a reason and a text
-- that is compared with the one stored in a plan or a preparation; `plan_source_event_ids` of
-- src/services/planning.rs.
use Prim.Native.Nat.{◌/◌, ◌%◌}
use Prim.Native.String.{◌++◌ as append, slice}
use dbtx.Prelude.{
  ℕ, zero, suc, ◌+◌, String, Bool, true, false, ◌&&◌, Option, none, some, List, [], ◌∷◌, ◌==◌,
  nat_eq, string_eq, option_eq, if◌then◌else◌, ltb, leb, sort_by,
}
use dbtx.Status.ReconcileReason.{ReconcileReason, as_str, code_change, source_state_change, parse}
use dbtx.Plan.{EnvironmentRunPlan}
use dbtx.Reconcile.Formats.{Formats}

pub data PreparationKind : Type 0 where
  target_manifest : PreparationKind

abbrev pub kind_as_str : PreparationKind → String
kind_as_str target_manifest = "target_manifest"

pub record ReconcileInputIdentity : Type 0 where
  pub reason : ReconcileReason
  pub fingerprint : String

-- `i64::to_string` of an id, which is no negative number and has at most 19 digits.
abbrev digit : ℕ → String
digit d = slice "0123456789" d (d + 1)

abbrev digits : ℕ → ℕ → String
digits zero n = ""
digits (suc k) n = elim (ltb n 10) [
  | true ↦ digit n
  | false ↦ append (digits k (n / 10)) (digit (n % 10))
]

abbrev pub decimal : ℕ → String
decimal n = digits 19 n

-- `Vec::dedup`: an element goes when it equals the one before it.
abbrev pub dedup_after : ℕ → List ℕ → List ℕ
dedup_after x [] = []
dedup_after x (y ∷ rest) = if x == y then dedup_after x rest else y ∷ dedup_after y rest

abbrev pub dedup : List ℕ → List ℕ
dedup [] = []
dedup (x ∷ rest) = x ∷ dedup_after x rest

unfoldable pub sorted_ids : List ℕ → List ℕ
unfolding sort_by
sorted_ids ids = dedup (sort_by leb ids)

-- `join(",")` of the printed ids.
abbrev pub join_after : String → List ℕ → String
join_after s [] = s
join_after s (i ∷ rest) = join_after (append s (append "," (decimal i))) rest

abbrev pub join : List ℕ → String
join [] = ""
join (i ∷ rest) = join_after (decimal i) rest

abbrev pub target_manifest_input_fingerprint : String → String
target_manifest_input_fingerprint s = append "target_manifest:" s

unfoldable pub source_state_change_input_fingerprint : List ℕ → String
unfolding sorted_ids
source_state_change_input_fingerprint ids = append "source_state_change:" (join (sorted_ids ids))

unfoldable pub source_state_change_identity : List ℕ → ReconcileInputIdentity
unfolding source_state_change_input_fingerprint
source_state_change_identity ids = record {
  reason = source_state_change;
  fingerprint = source_state_change_input_fingerprint ids;
}

abbrev pub matches_plan : ReconcileInputIdentity → EnvironmentRunPlan → Bool
unfolding parse
matches_plan identity p =
    reason_matches (parse p.reason) identity.reason
    && p.input_fingerprint == some identity.fingerprint
  where
    reason_matches : Option ReconcileReason → ReconcileReason → Bool
    reason_matches none r = false
    reason_matches (some r') r = as_str r' == as_str r

abbrev pub target_manifest_preparation_fingerprint : ReconcileInputIdentity → String
target_manifest_preparation_fingerprint identity =
    target_manifest_input_fingerprint identity.fingerprint

module _ (formats : Formats) where
  abbrev pub code_change_input_fingerprint : String → ℕ → String
  code_change_input_fingerprint sha run =
      append "code_change:" (append sha (append ":" (formats.uuid_text run)))

  abbrev pub code_change_input_fingerprint_for_baseline : String → Option ℕ → String
  code_change_input_fingerprint_for_baseline sha (some run) = code_change_input_fingerprint sha run
  code_change_input_fingerprint_for_baseline sha none =
      append "code_change:" (append sha ":initial")

  abbrev pub code_change_identity : String → Option ℕ → ReconcileInputIdentity
  code_change_identity sha baseline = record {
    reason = code_change;
    fingerprint = code_change_input_fingerprint_for_baseline sha baseline;
  }

  abbrev pub or_the_event : List ℕ → Option ℕ → List ℕ
  or_the_event [] none = []
  or_the_event [] (some i) = i ∷ []
  or_the_event (i ∷ rest) _ = i ∷ rest

  -- The ids in the plan's metadata, or else the plan's one event.
  unfoldable pub plan_source_event_ids : Option ℕ → String → List ℕ
  unfolding sorted_ids
  plan_source_event_ids event metadata =
      sorted_ids (or_the_event (formats.numbers_at "source_event_ids" metadata) event)
