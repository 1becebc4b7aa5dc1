-- ===== src/Invocation/Row.antt =====
-- What holds of every row of `invocations`, and what each `SET` does to it. `lease` is the check
-- `invocations_claim_lease_consistency` of migrations/0001_init.sql.
use dbtx.Prelude.{
  ℕ, String, Bool, true, false, ◌&&◌, ◌≡◌, ap, not, refl, Option, some, List, [], ◌∷◌, ◌++◌, arith,
  inl, inr, is_some, any, any-update_rows, any-delete_rows, any-eq-false, find, update_rows,
  delete_rows, nat_eq, ◌==◌, if◌then◌else◌, Elem, Bool-cases,
}
use dbtx.Invocation.{Invocation, is_running}
use dbtx.Invocation.Queue.{CreateInvocationInput, new_row, has_id, claimed}
use dbtx.Invocation.Lease.{beaten}
use dbtx.Invocation.Cancel.{cancel_row}
use dbtx.Invocation.Deadline.{failed_row}
use dbtx.Invocation.Events.{numbered}

pub record IsConsistent (r : Invocation) : Type 0 where
  pub lease : is_some r.lease_token ≡ (is_running r.status && is_some r.claimed_by)
  pub done : is_some r.completed_at ≡ not (is_running r.status)
  pub exit : is_some r.exit_code ≡ not (is_running r.status)
  pub claim : is_some r.claimed_at ≡ is_some r.claimed_by
  pub beat : is_some r.last_heartbeat_at ≡ is_some r.claimed_by
  pub cancel : is_some r.cancel_requested_at ≡ r.cancel_requested

-- No id occurs twice.
abbrev pub Distinct : List Invocation → Type 0
Distinct [] = Unit
Distinct (r ∷ rest) = (any (has_id r.invocation_id) rest ≡ false) × Distinct rest

abbrev pub row_at : ℕ → List Invocation → Option Invocation
row_at i = find (has_id i)

pub new_row-IsConsistent :
    (now : ℕ) (input : CreateInvocationInput) → IsConsistent (new_row now input)
new_row-IsConsistent now input = ground arith

pub claimed-IsConsistent :
    (now token : ℕ) (w : String) (r : Invocation)
    → is_running r.status ≡ true
    → IsConsistent r
    → IsConsistent (claimed now token w r)
claimed-IsConsistent now token w r h c = ground arith

pub beaten-IsConsistent :
    (now : ℕ) (r : Invocation)
    → is_some r.claimed_by ≡ true
    → IsConsistent r
    → IsConsistent (beaten now r)
beaten-IsConsistent now r h c = ground arith

pub cancel_row-IsConsistent :
    (now : ℕ) (r : Invocation) → IsConsistent r → IsConsistent (cancel_row now r)
unfolding cancel_row
cancel_row-IsConsistent now r c = ground arith

pub failed_row-IsConsistent :
    (now : ℕ) (message : String) (r : Invocation)
    → IsConsistent r
    → IsConsistent (failed_row now message r)
failed_row-IsConsistent now message r c = ground arith

pub numbered-IsConsistent : (r : Invocation) → IsConsistent r → IsConsistent (numbered r)
numbered-IsConsistent r c = ground arith

-- The statements keep ids apart.
pub Distinct-update_rows :
    (p : Invocation → Bool) (f : Invocation → Invocation) (rows : List Invocation)
    → ((r : Invocation) → (f r).invocation_id ≡ r.invocation_id)
    → Distinct rows
    → Distinct (update_rows p f rows)
Distinct-update_rows p f [] keep d = tt
Distinct-update_rows p f (r ∷ rest) keep d = (
  rw (same (p r)) (
      rw
        (any-update_rows (has_id r.invocation_id) p f rest
          (λ a. ap (λ j. j == r.invocation_id) (keep a)))
        d.0),
  Distinct-update_rows p f rest keep d.1,
)
  where
    same : (b : Bool) → (if b then f r else r).invocation_id ≡ r.invocation_id
    same true = keep r
    same false = refl

pub Distinct-delete_rows :
    (p : Invocation → Bool) (rows : List Invocation) → Distinct rows → Distinct (delete_rows p rows)
Distinct-delete_rows p [] d = tt
Distinct-delete_rows p (r ∷ rest) d =
    ground
      (arith, Distinct-delete_rows p rest d.1, any-delete_rows (has_id r.invocation_id) p rest d.0)

any-append :
    (q : Invocation → Bool) (rows : List Invocation) (r : Invocation)
    → any q rows ≡ false
    → q r ≡ false
    → any q (rows ++ r ∷ []) ≡ false
any-append q [] r h e = ground arith
any-append q (x ∷ rest) r h e = ground (arith, any-append q rest r)

pub Distinct-append :
    (rows : List Invocation) (r : Invocation)
    → any (has_id r.invocation_id) rows ≡ false
    → Distinct rows
    → Distinct (rows ++ r ∷ [])
Distinct-append [] r fresh d = (refl, tt)
Distinct-append (x ∷ rest) r fresh d =
    ground (arith, any-append (has_id x.invocation_id) rest r d.0, Distinct-append rest r)

-- Two rows of one id are one row.
pub Distinct-unique :
    (rows : List Invocation) (i : ℕ) (r : Invocation)
    → Distinct rows
    → Elem r rows
    → r.invocation_id ≡ i
    → row_at i rows ≡ some r
Distinct-unique [] i r d m e = absurd m
Distinct-unique (x ∷ rest) i r d (inl same) e = rw (← same) (ground arith)
Distinct-unique (x ∷ rest) i r d (inr old) e = elim (Bool-cases (has_id i x)) [
  | inl hit ↦ absurd (clash hit)
  | inr miss ↦ rw miss (Distinct-unique rest i r d.1 old e)
]
  where
    clash : has_id i x ≡ true → ⊥
    clash hit = ground (arith, any-eq-false (has_id x.invocation_id) rest r d.0 old)

pub Distinct-same :
    (rows : List Invocation) (a r : Invocation)
    → Distinct rows
    → Elem a rows
    → Elem r rows
    → a.invocation_id ≡ r.invocation_id
    → a ≡ r
Distinct-same rows a r d m n e =
    cc (
      Distinct-unique rows r.invocation_id a d m e,
      Distinct-unique rows r.invocation_id r d n refl,
    )
