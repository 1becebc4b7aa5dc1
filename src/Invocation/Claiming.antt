-- ===== src/Invocation/Claiming.antt =====
-- `claim_next_invocation` takes the earliest claimable row, and only that.
use dbtx.Prelude.{
  ℕ, String, true, false, ◌≡◌, inl, inr, refl, Option, none, some, List, [], ◌∷◌, arith, Elem,
  Elem-where_rows, Elem-ne-nil, Option-cases, Bool-cases, update_rows,
}
use dbtx.Status.ExecutionMode.{ExecutionMode}
use dbtx.Invocation.{Db, Invocation}
use dbtx.Invocation.Queue.{
  has_id, comes_before, earliest, is_candidate, candidates, claimed, response, registered,
  claim_next_invocation, ClaimResponse,
}

pub earliest-Elem : (rows : List Invocation) (r : Invocation) → earliest rows ≡ some r → Elem r rows
unfolding earliest
earliest-Elem [] r h = cc
earliest-Elem (x ∷ rest) r h = elim (Option-cases (earliest rest)) [
  | inl e ↦ ground arith
  | inr (y, e) ↦ ground (arith, earliest-Elem rest y e)
]

pub earliest-none : (rows : List Invocation) → earliest rows ≡ none → rows ≡ []
unfolding earliest
earliest-none [] h = refl
earliest-none (x ∷ rest) h = cc

-- No row comes strictly before the one that is taken.
pub earliest-first :
    (rows : List Invocation) (r a : Invocation)
    → earliest rows ≡ some r
    → Elem a rows
    → comes_before r a ≡ true
unfolding earliest
earliest-first [] r a h m = absurd m
earliest-first (x ∷ rest) r a h m = elim (Option-cases (earliest rest)) [
  | inl e ↦ elim m [
    | inl same ↦ ground arith
    | inr old ↦ absurd (Elem-ne-nil rest a old (earliest-none rest e))
  ]
  | inr (y, e) ↦ ground (arith, earliest-first rest y a e)
]

registered-invocations :
    (now : ℕ) (w : String) (mode : Option ExecutionMode) (queues : List String) (db : Db)
    → (registered now w mode queues db).invocations ≡ db.invocations
registered-invocations now w none queues db = refl
registered-invocations now w (some m) queues db = refl

module _ (now token : ℕ) (locked : List ℕ) (w : String) (mode : Option ExecutionMode)
    (queues : List String) (db : Db) where
  -- What a claim does with the rows, by the row that the query finds.
  pub rows_of_claim :
      (r : Invocation)
      → earliest (candidates now locked mode queues db.invocations) ≡ some r
      → (claim_next_invocation now token locked w mode queues db).1.invocations
        ≡ update_rows (has_id r.invocation_id) (claimed now token w) db.invocations
  unfolding claim_next_invocation
  rows_of_claim r e = rw e (rw (registered-invocations now w mode queues db))

  pub rows_of_no_claim :
      earliest (candidates now locked mode queues db.invocations) ≡ none
      → (claim_next_invocation now token locked w mode queues db).1.invocations ≡ db.invocations
  unfolding claim_next_invocation
  rows_of_no_claim e = rw e (registered-invocations now w mode queues db)

  -- A poll that returns nothing changes no row, and no unlocked row was claimable.
  pub claim_nothing :
      (claim_next_invocation now token locked w mode queues db).0 ≡ none
      → ((claim_next_invocation now token locked w mode queues db).1.invocations ≡ db.invocations)
        × ((r : Invocation) → Elem r db.invocations → is_candidate now locked mode queues r ≡ false)
  claim_nothing h =
      elim (Option-cases (earliest (candidates now locked mode queues db.invocations))) [
        | inl e ↦ (rows_of_no_claim e, none_left e)
        | inr (r, e) ↦ absurd (found r e)
      ]
    where
      none_left :
          earliest (candidates now locked mode queues db.invocations) ≡ none
          → (r : Invocation) → Elem r db.invocations
          → is_candidate now locked mode queues r ≡ false
      none_left e r m = elim (Bool-cases (is_candidate now locked mode queues r)) [
        | inl yes' ↦ absurd (
            Elem-ne-nil _ r
              ((Elem-where_rows (is_candidate now locked mode queues) r db.invocations).1 (m, yes'))
              (earliest-none _ e))
        | inr no' ↦ no'
      ]

      found :
          (r : Invocation)
          → earliest (candidates now locked mode queues db.invocations) ≡ some r
          → ⊥
      found r e = unfold claim_next_invocation in cc (rw e at h)

  -- A poll that returns a claim returns the earliest candidate and updates the rows of its id.
  pub claim_something :
      (c : ClaimResponse)
      → (claim_next_invocation now token locked w mode queues db).0 ≡ some c
      → (r : Invocation) × Elem r db.invocations
        × (is_candidate now locked mode queues r ≡ true)
        × ((a : Invocation)
            → Elem a db.invocations
            → is_candidate now locked mode queues a ≡ true
            → comes_before r a ≡ true)
        × (c ≡ response token w r)
        × ((claim_next_invocation now token locked w mode queues db).1.invocations
            ≡ update_rows (has_id r.invocation_id) (claimed now token w) db.invocations)
  unfolding claim_next_invocation
  claim_something c h =
      elim (Option-cases (earliest (candidates now locked mode queues db.invocations))) [
        | inl e ↦ absurd (cc (rw e at h))
        | inr (r, e) ↦
            let seat =
              (Elem-where_rows (is_candidate now locked mode queues) r db.invocations).0
                (earliest-Elem (candidates now locked mode queues db.invocations) r e) in
            (
              r,
              seat.0,
              seat.1,
              λ a m fits. earliest-first (candidates now locked mode queues db.invocations) r a e (
                  (Elem-where_rows (is_candidate now locked mode queues) a db.invocations).1
                    (m, fits)),
              cc (rw e at h),
              rows_of_claim r e,
            )
      ]
