-- ===== src/Plan/Exclusion.antt =====
-- The reconcile lease excludes: `acquire_environment_reconcile_lease` against who holds it.
use dbtx.Prelude.{
  ℕ, ◌+◌, ◌≤◌, String, true, false, ◌&&◌, ◌≡◌, refl, some, List, [], ◌∷◌, ◌++◌, ◌==◌, nat_eq,
  string_eq, arith, inl, inr, find, find-eq-some, find-update_rows, find-append, update_rows,
  delete_rows, Option-cases, Bool-cases, eq_self, eq_iff,
}
use dbtx.Plan.{ReconcileLease}
use dbtx.Plan.Lease.{
  is_of_environment, may_take, new_lease, take_over, acquire_environment_reconcile_lease,
  is_lease_of, release_environment_reconcile_lease,
}

-- Acquire and release calls with their instants.
pub data LeaseCall : Type 0 where
  acquire : ℕ → String → ℕ → LeaseCall
  release : ℕ → String → LeaseCall

unfoldable pub call_lease : ℕ → LeaseCall → List ReconcileLease → List ReconcileLease
call_lease now (acquire e owner d) leases =
    (acquire_environment_reconcile_lease now e owner d leases).1
call_lease now (release e owner) leases = release_environment_reconcile_lease e owner leases

unfoldable pub call_leases : List (ℕ × LeaseCall) → List ReconcileLease → List ReconcileLease
unfolding call_lease
call_leases [] leases = leases
call_leases ((now, c) ∷ rest) leases = call_leases rest (call_lease now c leases)

-- Calls that another owner makes, or that are about another environment, and that come no later
-- than an instant.
abbrev pub ByOthers : ℕ → ℕ → String → List (ℕ × LeaseCall) → Type 0
ByOthers t e owner [] = Unit
ByOthers t e owner ((now, acquire e' o d) ∷ rest) =
    (now ≤ t) × ((o == owner && e' == e) ≡ false) × ByOthers t e owner rest
ByOthers t e owner ((now, release e' o) ∷ rest) =
    (now ≤ t) × ((o == owner && e' == e) ≡ false) × ByOthers t e owner rest

found_after_update :
    (e e' : ℕ) (f : ReconcileLease → ReconcileLease) (leases : List ReconcileLease)
    (l : ReconcileLease)
    → ((a : ReconcileLease) → (f a).environment_id ≡ a.environment_id)
    → (e' == e) ≡ false
    → find (is_of_environment e) leases ≡ some l
    → find (is_of_environment e) (update_rows (is_of_environment e') f leases) ≡ some l
found_after_update e e' f [] l keep ne at = cc
found_after_update e e' f (x ∷ rest) l keep ne at =
    ground (arith, keep x, found_after_update e e' f rest l keep ne)

found_after_append :
    (e : ℕ) (leases : List ReconcileLease) (l x : ReconcileLease)
    → find (is_of_environment e) leases ≡ some l
    → find (is_of_environment e) (leases ++ x ∷ []) ≡ some l
found_after_append e leases l x at =
    rw (find-append (is_of_environment e) leases (x ∷ [])) (rw at refl)

found_after_delete :
    (e e' : ℕ) (o : String) (leases : List ReconcileLease) (l : ReconcileLease)
    → find (is_of_environment e) leases ≡ some l
    → is_lease_of e' o l ≡ false
    → find (is_of_environment e) (delete_rows (is_lease_of e' o) leases) ≡ some l
found_after_delete e e' o [] l at h = cc
found_after_delete e e' o (x ∷ rest) l at h = ground (arith, found_after_delete e e' o rest l)

not_his :
    (e e' : ℕ) (o owner : String) (l : ReconcileLease)
    → (o == owner && e' == e) ≡ false
    → l.environment_id ≡ e
    → l.owner ≡ owner
    → is_lease_of e' o l ≡ false
not_his e e' o owner l h same mine = ground (arith, eq_iff o owner, eq_iff l.owner o)

refused :
    (now e : ℕ) (o owner : String) (l : ReconcileLease)
    → (o == owner) ≡ false
    → l.owner ≡ owner
    → now ≤ l.leased_until
    → may_take now o l ≡ false
refused now e o owner l h mine live = ground (arith, eq_iff o owner, eq_iff l.owner o)

module _ (t e : ℕ) (owner : String) (l : ReconcileLease) (mine : l.owner ≡ owner)
    (live : t ≤ l.leased_until) where
  acquire_keeps :
      (now e' : ℕ) (o : String) (d : ℕ) (leases : List ReconcileLease)
      → now ≤ t
      → (o == owner && e' == e) ≡ false
      → find (is_of_environment e) leases ≡ some l
      → find (is_of_environment e) (acquire_environment_reconcile_lease now e' o d leases).1
        ≡ some l
  unfolding acquire_environment_reconcile_lease
  acquire_keeps now e' o d leases soon other at = elim (Bool-cases (e' == e)) [
    | inl same ↦
        let e'-e : e' ≡ e = ground arith in
        rw e'-e (rw at (rw (refused now e o owner l (ground arith) mine (ground arith)) at))
    | inr differ ↦ elim (Option-cases (find (is_of_environment e') leases)) [
      | inl none' ↦ rw none' (found_after_append e leases l (new_lease now e' o d) at)
      | inr (l', at') ↦ rw at' (elim (Bool-cases (may_take now o l')) [
        | inl yes' ↦
            rw yes' (found_after_update e e' (take_over now o d) leases l (λ a. refl) differ at)
        | inr no' ↦ rw no' at
      ])
    ]
  ]

  call_keeps :
      (now : ℕ) (c : LeaseCall) (leases : List ReconcileLease)
      → ByOthers t e owner ((now, c) ∷ [])
      → find (is_of_environment e) leases ≡ some l
      → find (is_of_environment e) (call_lease now c leases) ≡ some l
  unfolding call_lease
  call_keeps now (acquire e' o d) leases h at = acquire_keeps now e' o d leases h.0 h.1 at
  call_keeps now (release e' o) leases h at =
      unfold release_environment_reconcile_lease in
      found_after_delete e e' o leases l at (
        not_his e e' o owner l h.1 (ground (arith, find-eq-some (is_of_environment e) leases at))
          mine)

  calls_keep :
      (calls : List (ℕ × LeaseCall)) (leases : List ReconcileLease)
      → ByOthers t e owner calls
      → find (is_of_environment e) leases ≡ some l
      → find (is_of_environment e) (call_leases calls leases) ≡ some l
  unfolding call_leases
  calls_keep [] leases h at = at
  calls_keep ((now, acquire e' o d) ∷ rest) leases h at =
      calls_keep rest (call_lease now (acquire e' o d) leases) h.2
        (call_keeps now (acquire e' o d) leases (h.0, h.1, tt) at)
  calls_keep ((now, release e' o) ∷ rest) leases h at =
      calls_keep rest (call_lease now (release e' o) leases) h.2
        (call_keeps now (release e' o) leases (h.0, h.1, tt) at)

-- An acquire that succeeds leaves the caller as the holder for the whole duration.
pub acquire_holds :
    (now e : ℕ) (owner : String) (d : ℕ) (leases : List ReconcileLease)
    → (acquire_environment_reconcile_lease now e owner d leases).0 ≡ true
    → (l : ReconcileLease) × (find
          (is_of_environment e)
          (acquire_environment_reconcile_lease now e owner d leases).1
        ≡ some l)
      × (l.owner ≡ owner)
      × (l.leased_until ≡ now + d)
unfolding acquire_environment_reconcile_lease
acquire_holds now e owner d leases h = elim (Option-cases (find (is_of_environment e) leases)) [
  | inl none' ↦ rw none' (
    new_lease now e owner d,
    rw (find-append (is_of_environment e) leases (new_lease now e owner d ∷ []))
        (rw none' (rw (eq_self e) refl)),
    refl,
    refl,
  )
  | inr (l, at) ↦ elim (Bool-cases (may_take now owner l)) [
    | inl yes' ↦ rw at (
        rw yes' (
          take_over now owner d l,
          rw
              (find-update_rows (is_of_environment e) (is_of_environment e) (take_over now owner d)
                leases (λ a. refl))
              (rw at (rw (find-eq-some (is_of_environment e) leases at).1 refl)),
          refl,
          refl,
        ))
    | inr no' ↦ absurd (cc (rw no' at (rw at at h)))
  ]
]

-- After an acquire that succeeds, and whatever other owners acquire and release until the lease
-- runs out, an acquire of the same environment by another owner within that time is refused and
-- changes nothing.
pub lease_excludes :
    (now e d : ℕ) (owner : String) (leases : List ReconcileLease) (calls : List (ℕ × LeaseCall))
    (later d' : ℕ) (other : String)
    → (acquire_environment_reconcile_lease now e owner d leases).0 ≡ true
    → ByOthers (now + d) e owner calls
    → later ≤ now + d
    → (other == owner) ≡ false
    → (let held = call_leases calls (acquire_environment_reconcile_lease now e owner d leases).1 in
        acquire_environment_reconcile_lease later e other d' held ≡ (false, held))
unfolding acquire_environment_reconcile_lease
lease_excludes now e d owner leases calls later d' other h others soon differ =
    let (l, at, mine, until) = acquire_holds now e owner d leases h in
    let at' = calls_keep (now + d) e owner l mine (ground arith) calls _ others at in
    rw at' (rw (refused later e other owner l differ mine (ground arith)) refl)
