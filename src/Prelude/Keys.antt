-- ===== src/Prelude/Keys.antt =====
-- Types with a Boolean equality: the keys of maps and sets.
use Prim.Native.Nat.{ℕ}
use mathlib.Core.Path.{◌≡◌, refl}
use mathlib.Core.Logic.{◌↔◌}
use mathlib.Core.Bool.{Bool, true, false, ◌&&◌}
use mathlib.Core.List.{List, [], ◌∷◌}
use native.Mathlib.Omega.{arith}
use zeolite.Prelude.Tests.{eqb, eqb_iff}

pub record HasEq {ℓ} (A : Type ℓ) : Type ℓ where
  pub same : A → A → Bool
  pub same_iff : (x y : A) → (same x y ≡ true) ↔ (x ≡ y)

infix 48 ◌==◌
abbrev pub ◌==◌ {ℓ} : {A : Type ℓ} ⦃keys : HasEq A⦄ (x y : A) → Bool
◌==◌ ⦃keys⦄ x y = keys.same x y

pub ==_iff {ℓ} : {A : Type ℓ} ⦃e : HasEq A⦄ (a b : A) → ((a == b) ≡ true) ↔ (a ≡ b)
==_iff ⦃e⦄ a b = e.same_iff a b

pub ==_refl {ℓ} : {A : Type ℓ} ⦃e : HasEq A⦄ (a : A) → (a == a) ≡ true
==_refl ⦃e⦄ a = (e.same_iff a a).1 refl

instance abbrev pub nat_eq : HasEq ℕ
nat_eq = record { same = eqb; same_iff = eqb_iff }

-- A text of the source is a list of UTF-16 code units.
unfoldable pub list_beq : List ℕ → List ℕ → Bool
list_beq [] [] = true
list_beq (x ∷ xs) (y ∷ ys) = eqb x y && list_beq xs ys
list_beq _ _ = false

pub list_beq_iff : (xs ys : List ℕ) → (list_beq xs ys ≡ true) ↔ (xs ≡ ys)
unfolding list_beq
list_beq_iff [] [] = ground arith
list_beq_iff [] (y ∷ ys) = ground arith
list_beq_iff (x ∷ xs) [] = ground arith
list_beq_iff (x ∷ xs) (y ∷ ys) = ground (arith, list_beq_iff xs ys)

instance abbrev pub text_eq : HasEq (List ℕ)
text_eq = record { same = list_beq; same_iff = list_beq_iff }
