-- ===== src/Prelude/Members.antt =====
-- Membership in the lists that the components build: appended, filtered, sorted.
use mathlib.Core.Path.{◌≡◌}
use mathlib.Core.Logic.{◌⊎◌, ◌↔◌}
use mathlib.Core.Bool.{Bool, true}
use mathlib.Core.List.{List, [], ◌∷◌, ◌++◌}
use native.Mathlib.Omega.{arith}
use zeolite.Prelude.Lists.{filter, In}
use zeolite.Prelude.Sort.{insert, sort}

module _ {A : Type 0} where
  pub In-append : (a : A) (xs ys : List A) → In a (xs ++ ys) ↔ (In a xs ⊎ In a ys)
  In-append a [] ys = ground arith
  In-append a (x ∷ xs) ys = ground (arith, In-append a xs ys)

  pub In-filter :
      (p : A → Bool) (a : A) (xs : List A) → In a (filter p xs) ↔ (In a xs × (p a ≡ true))
  In-filter p a [] = ((λ h. absurd h), λ h. absurd h.0)
  In-filter p a (x ∷ xs) = ground (arith, In-filter p a xs)

  pub In-insert :
      (leb : A → A → Bool) (a x : A) (xs : List A) → In a (insert leb x xs) ↔ In a (x ∷ xs)
  unfolding insert
  In-insert leb a x [] = ((λ h. h), λ h. h)
  In-insert leb a x (y ∷ ys) = ground (arith, In-insert leb a x ys)

  pub In-sort : (leb : A → A → Bool) (a : A) (xs : List A) → In a (sort leb xs) ↔ In a xs
  unfolding sort
  In-sort leb a [] = ((λ h. h), λ h. h)
  In-sort leb a (x ∷ xs) = ground (arith, In-sort leb a xs, In-insert leb a x (sort leb xs))
