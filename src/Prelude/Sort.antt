-- ===== src/Prelude/Sort.antt =====
-- `Array.prototype.sort`: a stable sort by a comparator, here `leb x y` for `compare(x, y) <= 0`.
use mathlib.Core.Path.{◌≡◌}
use mathlib.Core.Bool.{Bool, true, false}
use mathlib.Core.List.{List, [], ◌∷◌, Perm}
use mathlib.Core.List.Perm
use zeolite.Prelude.Tests.{if◌then◌else◌, Bool-cases}
use mathlib.Core.Logic.{inl, inr}
use zeolite.Prelude.Lists.{All}

module _ {ℓ} {A : Type ℓ} (leb : A → A → Bool) where
  unfoldable pub insert : A → List A → List A
  insert x [] = x ∷ []
  insert x (y ∷ ys) = let rest = insert x ys in if leb x y then x ∷ y ∷ ys else y ∷ rest

  unfoldable pub sort : List A → List A
  unfolding insert
  sort [] = []
  sort (x ∷ xs) = insert x (sort xs)

module _ {A : Type 0} (leb : A → A → Bool) where
  insert-perm : (x : A) (xs : List A) → Perm (insert leb x xs) (x ∷ xs)
  unfolding insert
  insert-perm x [] = Perm.refl _
  insert-perm x (y ∷ ys) = elim (Bool-cases (leb x y)) [
    | inl e ↦ rw e (Perm.refl _)
    | inr e ↦ rw e (Perm.trans (Perm.cons y (insert-perm x ys)) (Perm.swap _ _ _))
  ]

  -- Sorting loses nothing and adds nothing.
  pub sort-perm : (xs : List A) → Perm (sort leb xs) xs
  unfolding sort
  sort-perm [] = Perm.refl _
  sort-perm (x ∷ xs) = Perm.trans (insert-perm x (sort leb xs)) (Perm.cons x (sort-perm xs))

  -- Each element is in the order with every later one.
  abbrev pub IsSorted : List A → Type 0
  IsSorted [] = Unit
  IsSorted (x ∷ xs) = All (λ y. leb x y ≡ true) xs × IsSorted xs

  All-insert {κ} : (P : A → Type κ) (x : A) (xs : List A) → P x → All P xs → All P (insert leb x xs)
  unfolding insert
  All-insert P x [] p v = (p, tt)
  All-insert P x (y ∷ ys) p v = elim (Bool-cases (leb x y)) [
    | inl e ↦ rw e (p, v)
    | inr e ↦ rw e (v.0, All-insert P x ys p v.1)
  ]

  pub All-sort {κ} : (P : A → Type κ) (xs : List A) → All P xs → All P (sort leb xs)
  unfolding sort
  All-sort P [] v = tt
  All-sort P (x ∷ xs) v = All-insert P x (sort leb xs) v.0 (All-sort P xs v.1)

  module _ (total : (a b : A) → leb a b ≡ false → leb b a ≡ true)
      (trans : (a b c : A) → leb a b ≡ true → leb b c ≡ true → leb a c ≡ true) where
    All-weaken :
        (a b : A) (xs : List A)
        → leb a b ≡ true
        → All (λ y. leb b y ≡ true) xs
        → All (λ y. leb a y ≡ true) xs
    All-weaken a b [] h v = tt
    All-weaken a b (x ∷ xs) h v = (trans a b x h v.0, All-weaken a b xs h v.1)

    insert-IsSorted : (x : A) (xs : List A) → IsSorted xs → IsSorted (insert leb x xs)
    unfolding insert
    insert-IsSorted x [] v = (tt, tt)
    insert-IsSorted x (y ∷ ys) v = elim (Bool-cases (leb x y)) [
      | inl e ↦ rw e ((e, All-weaken x y ys e v.0), v)
      | inr e ↦
          rw e (All-insert (λ z. leb y z ≡ true) x ys (total x y e) v.0, insert-IsSorted x ys v.1)
    ]

    pub sort-IsSorted : (xs : List A) → IsSorted (sort leb xs)
    unfolding sort
    sort-IsSorted [] = tt
    sort-IsSorted (x ∷ xs) = insert-IsSorted x (sort leb xs) (sort-IsSorted xs)
