-- ===== src/Reconcile/Fingerprint.antt =====
-- The fingerprint of source events depends only on which events there are.
use dbtx.Prelude.{
  ℕ, ◌<◌, true, ◌≡◌, ◌↔◌, ◌⊎◌, refl, inl, inr, List, [], ◌∷◌, ◌==◌, nat_eq, arith, leb, All,
  All-Elem, All-of_Elem, Elem, sort_by, Elem-sort_by, IsSorted, sort_by-IsSorted, Bool-cases,
}
use dbtx.Reconcile.Identity.{dedup_after, dedup, sorted_ids, source_state_change_input_fingerprint}

-- Each id is below all that follow it.
abbrev pub IsIncreasing : List ℕ → Type 0
IsIncreasing [] = Unit
IsIncreasing (x ∷ rest) = All (λ y. x < y) rest × IsIncreasing rest

Elem-dedup_after :
    (x a : ℕ) (rest : List ℕ) → ((a ≡ x) ⊎ Elem a (dedup_after x rest)) ↔ ((a ≡ x) ⊎ Elem a rest)
Elem-dedup_after x a [] = (λ h. h, λ h. h)
Elem-dedup_after x a (y ∷ rest) =
    ground (arith, Elem-dedup_after x a rest, Elem-dedup_after y a rest)

Elem-dedup : (a : ℕ) (xs : List ℕ) → Elem a (dedup xs) ↔ Elem a xs
Elem-dedup a [] = (λ h. h, λ h. h)
Elem-dedup a (x ∷ rest) = Elem-dedup_after x a rest

dedup_after-IsIncreasing :
    (x : ℕ) (rest : List ℕ)
    → All (λ y. leb x y ≡ true) rest
    → IsSorted leb rest
    → All (λ y. x < y) (dedup_after x rest) × IsIncreasing (dedup_after x rest)
dedup_after-IsIncreasing x [] h s = (tt, tt)
dedup_after-IsIncreasing x (y ∷ rest) h s = elim (Bool-cases (x == y)) [
  | inl same ↦ rw same (dedup_after-IsIncreasing x rest h.1 s.1)
  | inr more ↦
      let next = dedup_after-IsIncreasing y rest s.0 s.1 in
      rw more (
        (
          ground arith,
          All-of_Elem (λ z. x < z) (dedup_after y rest)
              λ z m. ground (arith, All-Elem (λ w. y < w) (dedup_after y rest) next.0 z m),
        ),
        next,
      )
]

dedup-IsIncreasing : (xs : List ℕ) → IsSorted leb xs → IsIncreasing (dedup xs)
dedup-IsIncreasing [] s = tt
dedup-IsIncreasing (x ∷ rest) s = dedup_after-IsIncreasing x rest s.0 s.1

sorted_ids-IsIncreasing : (ids : List ℕ) → IsIncreasing (sorted_ids ids)
unfolding sorted_ids
sorted_ids-IsIncreasing ids =
    dedup-IsIncreasing (sort_by leb ids)
      (sort_by-IsSorted leb (λ a b. ground arith) (λ a b c. ground arith) ids)

Elem-sorted_ids : (a : ℕ) (ids : List ℕ) → Elem a (sorted_ids ids) ↔ Elem a ids
unfolding sorted_ids
Elem-sorted_ids a ids =
    let (there, back) = Elem-dedup a (sort_by leb ids) in
    let (there', back') = Elem-sort_by leb a ids in (λ m. there' (there m), λ m. back (back' m))

-- A set has one increasing list.
increasing_is_unique :
    (xs ys : List ℕ)
    → IsIncreasing xs
    → IsIncreasing ys
    → ((a : ℕ) → Elem a xs ↔ Elem a ys)
    → xs ≡ ys
increasing_is_unique [] [] hx hy same = refl
increasing_is_unique [] (y ∷ ys) hx hy same = absurd ((same y).1 (inl refl))
increasing_is_unique (x ∷ xs) [] hx hy same = absurd ((same x).0 (inl refl))
increasing_is_unique (x ∷ xs) (y ∷ ys) hx hy same =
    let below = All-Elem (λ w. x < w) xs hx.0 in
    let below' = All-Elem (λ w. y < w) ys hy.0 in
    let e : x ≡ y =
      ground (arith, (same x).0 (inl refl), (same y).1 (inl refl), below y, below' x) in
    let rest : xs ≡ ys =
      increasing_is_unique xs ys hx.1 hy.1 λ a. ground (arith, e, same a, below a, below' a) in
    cc

-- Two lists of source events with the same members have the same fingerprint, whatever their order
-- and however often an event is in them.
pub fingerprint_of_set :
    (xs ys : List ℕ)
    → ((a : ℕ) → Elem a xs ↔ Elem a ys)
    → source_state_change_input_fingerprint xs ≡ source_state_change_input_fingerprint ys
unfolding source_state_change_input_fingerprint
fingerprint_of_set xs ys same =
    let e : sorted_ids xs ≡ sorted_ids ys =
      increasing_is_unique (sorted_ids xs) (sorted_ids ys) (sorted_ids-IsIncreasing xs)
        (sorted_ids-IsIncreasing ys)
        λ a. ground (arith, same a, Elem-sorted_ids a xs, Elem-sorted_ids a ys) in
    rw e refl
