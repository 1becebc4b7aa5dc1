-- ===== src/Prelude/Equality.antt =====
-- Decidable equality as an interface, with one operator for every type that has an instance.
use Prim.Native.Nat.{ℕ}
use Prim.Native.String.{String}
use mathlib.Core.Path.{◌≡◌, refl}
use mathlib.Core.Logic.{◌↔◌}
use mathlib.Core.Bool.{Bool, true, false}
use mathlib.Core.Option.{Option, none, some}
use native.Mathlib.Omega.{arith}
use text.Mathlib.Text.{◌==◌ as str_beq}
use text.Mathlib.TextEquality.{eq_iff}
use dbtx.Prelude.Tests.{nat_beq, nat_beq_iff}

pub record BoolEq {ℓ} (A : Type ℓ) : Type ℓ where
  pub eqb : A → A → Bool
  pub eqb_iff : (a b : A) → (eqb a b ≡ true) ↔ (a ≡ b)

infix 50 ◌==◌
abbrev pub ◌==◌ {ℓ} : {A : Type ℓ} ⦃e : BoolEq A⦄ → A → A → Bool
◌==◌ ⦃e⦄ = e.eqb

instance abbrev pub nat_eq : BoolEq ℕ
nat_eq = record { eqb = nat_beq; eqb_iff = nat_beq_iff }

instance abbrev pub string_eq : BoolEq String
string_eq = record { eqb = str_beq; eqb_iff = eq_iff }

-- `IS NOT DISTINCT FROM`, and `==` of `Option`.
abbrev pub option_beq {ℓ} : {A : Type ℓ} → (A → A → Bool) → Option A → Option A → Bool
option_beq f none none = true
option_beq f none (some b) = false
option_beq f (some a) none = false
option_beq f (some a) (some b) = f a b

pub option_beq_iff {ℓ} :
    {A : Type ℓ} (e : BoolEq A) (a b : Option A) → (option_beq e.eqb a b ≡ true) ↔ (a ≡ b)
option_beq_iff e none none = ground arith
option_beq_iff e none (some b) = ground arith
option_beq_iff e (some a) none = ground arith
option_beq_iff e (some a) (some b) = ground (arith, e.eqb_iff a b)

instance abbrev pub option_eq {ℓ} : {A : Type ℓ} ⦃e : BoolEq A⦄ → BoolEq (Option A)
option_eq ⦃e⦄ = record { eqb = option_beq e.eqb; eqb_iff = option_beq_iff e }

pub eq_self {ℓ} : {A : Type ℓ} ⦃e : BoolEq A⦄ (a : A) → (a == a) ≡ true
eq_self ⦃e⦄ a = (e.eqb_iff a a).1 refl
