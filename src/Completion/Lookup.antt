-- ===== src/Completion/Lookup.antt =====
-- What the steps of a rebuild do to the rows at one key.
use dbtx.Prelude.{
  ℕ, String, Bool, true, false, ◌≡◌, ◌≢◌, refl, inl, inr, some, List, [], ◌∷◌, ◌++◌, nat_eq,
  string_eq, arith, if◌then◌else◌, any, find, update_rows, delete_rows, Elem, eq_self, eq_iff,
  Bool-cases,
}
use dbtx.Reconcile.{NodeState}
use dbtx.Reconcile.Queries.{is_state_of}
use dbtx.Completion.NodeStates.{is_state}

module _ {A : Type 0} (q p : A → Bool) (f : A → A) where
  pub any-update_other :
      (xs : List A) → ((a : A) → p a ≡ true → q (f a) ≡ q a) → any q (update_rows p f xs) ≡ any q xs
  any-update_other [] keep = refl
  any-update_other (x ∷ xs) keep = elim (Bool-cases (p x)) [
    | inl hit ↦ rw hit (rw (keep x hit) (rw (any-update_other xs keep)))
    | inr miss ↦ rw miss (rw (any-update_other xs keep))
  ]

pub any-append :
    {A : Type 0} (q : A → Bool) (xs : List A) (a : A)
    → q a ≡ false
    → any q (xs ++ a ∷ []) ≡ any q xs
any-append q [] a h = rw h
any-append q (x ∷ xs) a h = rw (any-append q xs a h)

pub any-append_last :
    {A : Type 0} (q : A → Bool) (xs : List A) (a : A) → q a ≡ true → any q (xs ++ a ∷ []) ≡ true
any-append_last q [] a h = rw h
any-append_last q (x ∷ xs) a h = ground (arith, any-append_last q xs a h)

pub any-append_true :
    {A : Type 0} (q : A → Bool) (xs ys : List A) → any q xs ≡ true → any q (xs ++ ys) ≡ true
any-append_true q [] ys h = absurd (cc h)
any-append_true q (x ∷ xs) ys h = ground (arith, any-append_true q xs ys)

-- One row only, which passes: the first one that passes.
pub find_only :
    {A : Type 0} (q : A → Bool) (xs : List A) (row : A)
    → any q xs ≡ true
    → ((a : A) → Elem a xs → q a ≡ true → a ≡ row)
    → find q xs ≡ some row
find_only q [] row h only = absurd (cc h)
find_only q (x ∷ xs) row h only = elim (Bool-cases (q x)) [
  | inl hit ↦ rw hit (rw (only x (inl refl) hit))
  | inr miss ↦ rw miss (find_only q xs row (rw miss at h) λ a m. only a (inr m))
]

pub find-delete_rows :
    {A : Type 0} (q d : A → Bool) (xs : List A)
    → find q (delete_rows d xs) ≡ find (λ a. if d a then false else q a) xs
find-delete_rows q d [] = refl
find-delete_rows q d (x ∷ xs) = elim (Bool-cases (d x)) [
  | inl hit ↦ rw hit (find-delete_rows q d xs)
  | inr miss ↦ rw miss (rw (find-delete_rows q d xs))
]

pub find-cong :
    {A : Type 0} (q q' : A → Bool) (xs : List A)
    → ((a : A) → Elem a xs → q a ≡ q' a)
    → find q xs ≡ find q' xs
find-cong q q' [] same = refl
find-cong q q' (x ∷ xs) same = rw (same x (inl refl)) (rw (find-cong q q' xs λ a m. same a (inr m)))

module _ (p e : ℕ) (u : String) where
  abbrev pub IsAt : NodeState → Type 0
  IsAt r = is_state p e u r ≡ true

  -- A key is not two.
  pub other_key :
      (v : String) (r : NodeState) → v ≢ u → is_state p e v r ≡ true → is_state p e u r ≡ false
  other_key v r apart h = elim (Bool-cases (is_state p e u r)) [
    | inl hit ↦ absurd (apart (one_key v r h hit))
    | inr miss ↦ miss
  ]
    where
      one_key : (v : String) (r : NodeState) → is_state p e v r ≡ true → IsAt r → v ≡ u
      one_key v r h hit = ground (arith, eq_iff r.unique_id v, eq_iff r.unique_id u)

  pub own_key : (r : NodeState) → r.project_id ≡ p → r.environment_id ≡ e → r.unique_id ≡ u → IsAt r
  own_key r hp he hu = rw hp (rw he (rw hu (rw (eq_self p) (rw (eq_self e) (rw (eq_self u) refl)))))

  pub in_scope : (r : NodeState) → IsAt r → is_state_of p e r ≡ true
  in_scope r h = ground arith
