-- ===== src/Prelude/Sorting.antt =====
-- `ORDER BY`: insertion sort by a Boolean order, what it keeps, and that it sorts.
use Prim.Native.Nat.{suc}
use mathlib.Core.Path.{◌≡◌, refl, ap}
use mathlib.Core.Logic.{◌↔◌, ◌⊎◌, inl, inr}
use mathlib.Core.Bool.{Bool, true, false}
use mathlib.Core.List.{List, [], ◌∷◌}
use native.Mathlib.Omega.{arith}
use dbtx.Prelude.Tests.{if◌then◌else◌, Bool-cases}
use dbtx.Prelude.Lists.{length, Elem, All, All-of_Elem, All-Elem}

module _ {A : Type 0} (le : A → A → Bool) where
  unfoldable pub insert_by : A → List A → List A
  insert_by x [] = x ∷ []
  insert_by x (y ∷ rest) = if le x y then x ∷ y ∷ rest else y ∷ insert_by x rest

  unfoldable pub sort_by : List A → List A
  unfolding insert_by
  sort_by [] = []
  sort_by (x ∷ rest) = insert_by x (sort_by rest)

  -- Every element comes before all that follow it.
  abbrev pub IsSorted : List A → Type 0
  IsSorted [] = Unit
  IsSorted (x ∷ rest) = All (λ y. le x y ≡ true) rest × IsSorted rest

  Elem-insert_by : (a x : A) (xs : List A) → Elem a (insert_by x xs) ↔ ((a ≡ x) ⊎ Elem a xs)
  unfolding insert_by
  Elem-insert_by a x [] = ground arith
  Elem-insert_by a x (y ∷ rest) = ground (arith, Elem-insert_by a x rest)

  pub Elem-sort_by : (a : A) (xs : List A) → Elem a (sort_by xs) ↔ Elem a xs
  unfolding sort_by
  Elem-sort_by a [] = (λ h. h, λ h. h)
  Elem-sort_by a (x ∷ rest) = ground (arith, Elem-insert_by a x (sort_by rest), Elem-sort_by a rest)

  length-insert_by : (x : A) (xs : List A) → length (insert_by x xs) ≡ suc (length xs)
  unfolding insert_by
  length-insert_by x [] = refl
  length-insert_by x (y ∷ rest) = ground (arith, length-insert_by x rest)

  pub length-sort_by : (xs : List A) → length (sort_by xs) ≡ length xs
  unfolding sort_by
  length-sort_by [] = refl
  length-sort_by (x ∷ rest) = rw (length-insert_by x (sort_by rest)) (ap suc (length-sort_by rest))

  module _ (total : (a b : A) → le a b ≡ false → le b a ≡ true)
      (trans : (a b c : A) → le a b ≡ true → le b c ≡ true → le a c ≡ true) where
    insert_by-IsSorted : (x : A) (xs : List A) → IsSorted xs → IsSorted (insert_by x xs)
    unfolding insert_by
    insert_by-IsSorted x [] h = (tt, tt)
    insert_by-IsSorted x (y ∷ rest) h = elim (Bool-cases (le x y)) [
      | inl e ↦ rw e (
        (
          e,
          All-of_Elem (λ z. le x z ≡ true) rest
              λ z m. trans x y z e (All-Elem (λ w. le y w ≡ true) rest h.0 z m),
        ),
        h,
      )
      | inr e ↦ rw e (
        All-of_Elem (λ z. le y z ≡ true) (insert_by x rest)
            λ z m. elim ((Elem-insert_by z x rest).0 m) [
              | inl same ↦ rw same (total x y e)
              | inr old ↦ All-Elem (λ w. le y w ≡ true) rest h.0 z old
            ],
        insert_by-IsSorted x rest h.1,
      )
    ]

    pub sort_by-IsSorted : (xs : List A) → IsSorted (sort_by xs)
    unfolding sort_by
    sort_by-IsSorted [] = tt
    sort_by-IsSorted (x ∷ rest) = insert_by-IsSorted x (sort_by rest) (sort_by-IsSorted rest)
