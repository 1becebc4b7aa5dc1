-- ===== src/Prelude/Lists.antt =====
-- Lists read as tables and sets: membership, quantifiers, and the statements of SQL over rows.
use Prim.Native.Nat.{ℕ, zero, suc}
use mathlib.Core.Path.{◌≡◌, refl}
use mathlib.Core.Logic.{◌↔◌, ◌⊎◌, inl, inr}
use mathlib.Core.Bool.{Bool, true, false, ◌||◌}
use mathlib.Core.Option
use mathlib.Core.Option.{Option, none, some}
use mathlib.Core.List.{List, [], ◌∷◌, ◌++◌, map}
use native.Mathlib.Omega.{arith}
use dbtx.Prelude.Tests.{if◌then◌else◌, coalesce, Bool-cases}
use dbtx.Prelude.Equality.{BoolEq, ◌==◌}

module _ {ℓ} {A : Type ℓ} where
  abbrev pub length : List A → ℕ
  length [] = 0
  length (x ∷ xs) = suc (length xs)

  abbrev pub All {κ} : (A → Type κ) → List A → Type κ
  All P [] = Unit
  All P (x ∷ xs) = P x × All P xs

  abbrev pub take : ℕ → List A → List A
  take zero xs = []
  take (suc n) [] = []
  take (suc n) (x ∷ xs) = x ∷ take n xs

  abbrev pub drop : ℕ → List A → List A
  drop zero xs = xs
  drop (suc n) [] = []
  drop (suc n) (x ∷ xs) = drop n xs

  abbrev pub any : (A → Bool) → List A → Bool
  any p [] = false
  any p (x ∷ xs) = p x || any p xs

  -- `SELECT … WHERE p`, in the order of the table.
  abbrev pub where_rows : (A → Bool) → List A → List A
  where_rows p [] = []
  where_rows p (x ∷ xs) = if p x then x ∷ where_rows p xs else where_rows p xs

  -- `UPDATE … SET f WHERE p`.
  abbrev pub update_rows : (A → Bool) → (A → A) → List A → List A
  update_rows p f [] = []
  update_rows p f (x ∷ xs) = (if p x then f x else x) ∷ update_rows p f xs

  -- `DELETE … WHERE p`.
  abbrev pub delete_rows : (A → Bool) → List A → List A
  delete_rows p [] = []
  delete_rows p (x ∷ xs) = if p x then delete_rows p xs else x ∷ delete_rows p xs

  -- `fetch_optional`: the first row that passes.
  abbrev pub find : (A → Bool) → List A → Option A
  find p [] = none
  find p (x ∷ xs) = if p x then some x else find p xs

-- Membership that keeps its place. The program's rows all live in `Type 0`.
abbrev pub Elem : {A : Type 0} → A → List A → Type 0
Elem a [] = ⊥
Elem a (x ∷ xs) = (a ≡ x) ⊎ Elem a xs

module _ {A : Type 0} where
  pub Elem-where_rows :
      (p : A → Bool) (a : A) (xs : List A) → Elem a (where_rows p xs) ↔ (Elem a xs × (p a ≡ true))
  Elem-where_rows p a [] = (λ h. absurd h, λ h. h.0)
  Elem-where_rows p a (x ∷ xs) = ground (arith, Elem-where_rows p a xs)

  pub Elem-delete_rows :
      (p : A → Bool) (a : A) (xs : List A) → Elem a (delete_rows p xs) ↔ (Elem a xs × (p a ≡ false))
  Elem-delete_rows p a [] = (λ h. absurd h, λ h. h.0)
  Elem-delete_rows p a (x ∷ xs) = ground (arith, Elem-delete_rows p a xs)

  pub All-Elem {κ} : (P : A → Type κ) (xs : List A) → All P xs → (a : A) → Elem a xs → P a
  All-Elem P [] h a e = absurd e
  All-Elem P (x ∷ xs) h a (inl e) = rw e h.0
  All-Elem P (x ∷ xs) h a (inr e) = All-Elem P xs h.1 a e

  pub All-of_Elem {κ} : (P : A → Type κ) (xs : List A) → ((a : A) → Elem a xs → P a) → All P xs
  All-of_Elem P [] h = tt
  All-of_Elem P (x ∷ xs) h = (h x (inl refl), All-of_Elem P xs (λ a e. h a (inr e)))

  -- An update keeps what its own step keeps.
  pub All-update_rows {κ} :
      (P : A → Type κ) (p : A → Bool) (f : A → A) (xs : List A)
      → ((a : A) → Elem a xs → p a ≡ true → P a → P (f a))
      → All P xs
      → All P (update_rows p f xs)
  All-update_rows P p f [] step h = tt
  All-update_rows P p f (x ∷ xs) step h =
      (keep (p x) refl, All-update_rows P p f xs (λ a m. step a (inr m)) h.1)
    where
      keep : (b : Bool) → p x ≡ b → P (if b then f x else x)
      keep true e = step x (inl refl) e h.0
      keep false e = h.0

  pub All-where_rows {κ} :
      (P : A → Type κ) (p : A → Bool) (xs : List A) → All P xs → All P (where_rows p xs)
  All-where_rows P p xs h =
      All-of_Elem P (where_rows p xs) λ a e. All-Elem P xs h a ((Elem-where_rows p a xs).0 e).0

  pub All-delete_rows {κ} :
      (P : A → Type κ) (p : A → Bool) (xs : List A) → All P xs → All P (delete_rows p xs)
  All-delete_rows P p xs h =
      All-of_Elem P (delete_rows p xs) λ a e. All-Elem P xs h a ((Elem-delete_rows p a xs).0 e).0

  pub All-append {κ} : (P : A → Type κ) (xs ys : List A) → All P xs → All P ys → All P (xs ++ ys)
  All-append P [] ys hx hy = hy
  All-append P (x ∷ xs) ys hx hy = (hx.0, All-append P xs ys hx.1 hy)

  pub Elem-append : (a : A) (xs ys : List A) → Elem a (xs ++ ys) ↔ (Elem a xs ⊎ Elem a ys)
  Elem-append a [] ys = ground arith
  Elem-append a (x ∷ xs) ys = ground (arith, Elem-append a xs ys)

  pub find-eq-some :
      (p : A → Bool) (xs : List A) {a : A} → find p xs ≡ some a → Elem a xs × (p a ≡ true)
  find-eq-some p [] h = cc
  find-eq-some p (x ∷ xs) {a} h = ground (arith, find-eq-some p xs {a = a})

  pub find-eq-none :
      (p : A → Bool) (xs : List A) (a : A) → find p xs ≡ none → Elem a xs → p a ≡ false
  find-eq-none p [] a h e = absurd e
  find-eq-none p (x ∷ xs) a h e = ground (arith, find-eq-none p xs a)

  pub any-eq-false :
      (p : A → Bool) (xs : List A) (a : A) → any p xs ≡ false → Elem a xs → p a ≡ false
  any-eq-false p [] a h e = absurd e
  any-eq-false p (x ∷ xs) a h e = ground (arith, any-eq-false p xs a)

  pub any_of_Elem : (p : A → Bool) (xs : List A) (a : A) → Elem a xs → p a ≡ true → any p xs ≡ true
  any_of_Elem p [] a e h = absurd e
  any_of_Elem p (x ∷ xs) a e h = ground (arith, any_of_Elem p xs a)

  -- What `find` sees after an update that its test does not notice.
  pub find-update_rows :
      (q p : A → Bool) (f : A → A) (xs : List A)
      → ((a : A) → q (f a) ≡ q a)
      → find q (update_rows p f xs) ≡ Option.map (λ a. if p a then f a else a) (find q xs)
  find-update_rows q p f [] keep = refl
  find-update_rows q p f (x ∷ xs) keep = ground (arith, keep x, find-update_rows q p f xs keep)

  pub find-append :
      (q : A → Bool) (xs ys : List A) → find q (xs ++ ys) ≡ coalesce (find q xs) (find q ys)
  find-append q [] ys = refl
  find-append q (x ∷ xs) ys = ground (arith, find-append q xs ys)

  pub find-of_any-false : (q : A → Bool) (xs : List A) → any q xs ≡ false → find q xs ≡ none
  find-of_any-false q [] h = refl
  find-of_any-false q (x ∷ xs) h = ground (arith, find-of_any-false q xs)

  pub any-update_rows :
      (q p : A → Bool) (f : A → A) (xs : List A)
      → ((a : A) → q (f a) ≡ q a)
      → any q (update_rows p f xs) ≡ any q xs
  any-update_rows q p f [] keep = refl
  any-update_rows q p f (x ∷ xs) keep = ground (arith, keep x, any-update_rows q p f xs keep)

  pub any-delete_rows :
      (q p : A → Bool) (xs : List A) → any q xs ≡ false → any q (delete_rows p xs) ≡ false
  any-delete_rows q p [] h = refl
  any-delete_rows q p (x ∷ xs) h = ground (arith, any-delete_rows q p xs)

  pub Elem-update_rows :
      (p : A → Bool) (f : A → A) (xs : List A) (a : A)
      → Elem a (update_rows p f xs)
      → (x : A) × Elem x xs × (a ≡ (if p x then f x else x))
  Elem-update_rows p f [] a m = absurd m
  Elem-update_rows p f (x ∷ xs) a (inl e) = (x, inl refl, e)
  Elem-update_rows p f (x ∷ xs) a (inr m) =
      let (y, there, e) = Elem-update_rows p f xs a m in (y, inr there, e)

  pub updated-Elem :
      (p : A → Bool) (f : A → A) (xs : List A) (a : A)
      → Elem a xs
      → Elem (if p a then f a else a) (update_rows p f xs)
  updated-Elem p f [] a m = m
  updated-Elem p f (x ∷ xs) a (inl e) = inl (rw e refl)
  updated-Elem p f (x ∷ xs) a (inr m) = inr (updated-Elem p f xs a m)

  pub Elem-of_any :
      (p : A → Bool) (xs : List A) → any p xs ≡ true → (a : A) × Elem a xs × (p a ≡ true)
  Elem-of_any p [] h = absurd (cc h)
  Elem-of_any p (x ∷ xs) h = elim (Bool-cases (p x)) [
    | inl hit ↦ (x, inl refl, hit)
    | inr miss ↦ let (a, m, hit) = Elem-of_any p xs (rw miss at h) in (a, inr m, hit)
  ]

  pub nil_of_no_Elem : (xs : List A) → ((a : A) → Elem a xs → ⊥) → xs ≡ []
  nil_of_no_Elem [] h = refl
  nil_of_no_Elem (x ∷ xs) h = absurd (h x (inl refl))

  pub any-false_of_Elem :
      (p : A → Bool) (xs : List A) → ((a : A) → Elem a xs → p a ≡ false) → any p xs ≡ false
  any-false_of_Elem p [] h = refl
  any-false_of_Elem p (x ∷ xs) h = rw (h x (inl refl)) (any-false_of_Elem p xs λ a m. h a (inr m))

  pub Elem-ne-nil : (xs : List A) (a : A) → Elem a xs → xs ≡ [] → ⊥
  Elem-ne-nil [] a m e = m
  Elem-ne-nil (x ∷ xs) a m e = cc

pub Elem-map :
    {A B : Type 0} (f : A → B) (b : B) (xs : List A)
    → Elem b (map f xs) ↔ ((a : A) × Elem a xs × (b ≡ f a))
Elem-map f b [] = (λ m. absurd m, λ (a, m, _). absurd m)
Elem-map f b (x ∷ xs) = (
  λ h. elim h [
    | inl e ↦ (x, inl refl, e)
    | inr m ↦ let (a, there, e) = (Elem-map f b xs).0 m in (a, inr there, e)
  ],
  λ (a, m, e). elim m [
    | inl same ↦ inl (rw (← same) e)
    | inr there ↦ inr ((Elem-map f b xs).1 (a, there, e))
  ],
)

module _ {A : Type 0} ⦃e : BoolEq A⦄ where
  abbrev pub contains : A → List A → Bool
  contains a xs = any (λ x. a == x) xs

  pub contains_iff : (a : A) (xs : List A) → (contains a xs ≡ true) ↔ Elem a xs
  contains_iff a [] = ground arith
  contains_iff a (x ∷ xs) = ground (arith, e.eqb_iff a x, contains_iff a xs)

module _ {A : Type 0} (q p : A → Bool) (f : A → A) where
  -- An update of rows that a test does not take, which leaves them so.
  pub find-update_other :
      (xs : List A)
      → ((a : A) → p a ≡ true → (q a ≡ false) × (q (f a) ≡ false))
      → find q (update_rows p f xs) ≡ find q xs
  find-update_other [] apart = refl
  find-update_other (x ∷ xs) apart = elim (Bool-cases (p x)) [
    | inl hit ↦ rw hit (rw ((apart x hit).1) (rw ((apart x hit).0) (find-update_other xs apart)))
    | inr miss ↦ rw miss (rw (find-update_other xs apart))
  ]

pub coalesce-none : {A : Type 0} (o : Option A) → coalesce o none ≡ o
coalesce-none none = refl
coalesce-none (some r) = refl
