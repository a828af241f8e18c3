-- ===== src/Prelude/Pick.antt =====
-- The selection loop that several components share:
-- `for (x of xs) { if (best === null || better(x, best)) best = x; }`.
use mathlib.Core.Path.{◌≡◌, refl, subst}
use mathlib.Core.Bool.{Bool, true, false, not}
use mathlib.Core.Logic.{◌↔◌, inl, inr}
use mathlib.Core.Option.{Option, none, some, some-injective}
use mathlib.Core.List.{List, [], ◌∷◌, ◌++◌, append_assoc, append-nil}
use zeolite.Prelude.Tests.{if◌then◌else◌, Bool-cases}
use zeolite.Prelude.Lists.{All, All-append}

module _ {ℓ} {A : Type ℓ} (better : A → A → Bool) where
  unfoldable pub pick : List A → Option A → Option A
  pick [] best = best
  pick (x ∷ xs) none = pick xs (some x)
  pick (x ∷ xs) (some b) = pick xs (some (if better x b then x else b))

-- `leb` is a total preorder.
pub record IsPreorder {ℓ} {A : Type ℓ} (leb : A → A → Bool) : Type ℓ where
  pub total : (a b : A) → leb a b ≡ false → leb b a ≡ true
  pub trans : (a b c : A) → leb a b ≡ true → leb b c ≡ true → leb a c ≡ true

module _ {A : Type 0} (leb : A → A → Bool) where
  -- `r` is the last of the greatest elements of `xs`; the first of the greatest.
  pub record IsLastMax (xs : List A) (r : A) : Type 0 where
    pub before : List A
    pub after : List A
    pub parts : xs ≡ before ++ r ∷ after
    pub before_le : All (λ x. leb x r ≡ true) before
    pub after_lt : All (λ x. leb r x ≡ false) after

  pub record IsFirstMax (xs : List A) (r : A) : Type 0 where
    pub before : List A
    pub after : List A
    pub parts : xs ≡ before ++ r ∷ after
    pub before_lt : All (λ x. leb r x ≡ false) before
    pub after_le : All (λ x. leb x r ≡ true) after

  module _ (order : IsPreorder leb) where
    All-le_trans :
        (xs : List A) (a b : A)
        → leb a b ≡ true
        → All (λ x. leb x a ≡ true) xs
        → All (λ x. leb x b ≡ true) xs
    All-le_trans [] a b h v = tt
    All-le_trans (x ∷ xs) a b h v = (order.trans x a b v.0 h, All-le_trans xs a b h v.1)

    lt_trans : (a b c : A) → leb b a ≡ false → leb b c ≡ true → leb c a ≡ false
    lt_trans a b c h k = elim (Bool-cases (leb c a)) [
      | inl e ↦ cc (order.trans b c a k e)
      | inr e ↦ e
    ]

    All-lt_trans :
        (xs : List A) (a b : A)
        → leb a b ≡ true
        → All (λ x. leb a x ≡ false) xs
        → All (λ x. leb b x ≡ false) xs
    All-lt_trans [] a b h v = tt
    All-lt_trans (x ∷ xs) a b h v = (lt_trans x a b v.0 h, All-lt_trans xs a b h v.1)

    All-le_of_lt :
        (xs : List A) (a b : A)
        → leb a b ≡ true
        → All (λ x. leb a x ≡ false) xs
        → All (λ x. leb x b ≡ true) xs
    All-le_of_lt [] a b h v = tt
    All-le_of_lt (x ∷ xs) a b h v =
        (order.trans x a b (order.total a x v.0) h, All-le_of_lt xs a b h v.1)

    All-lt_of_lt :
        (xs : List A) (a b : A)
        → leb b a ≡ false
        → All (λ x. leb x a ≡ true) xs
        → All (λ x. leb b x ≡ false) xs
    All-lt_of_lt [] a b h v = tt
    All-lt_of_lt (x ∷ xs) a b h v = (le_lt x a b v.0 h, All-lt_of_lt xs a b h v.1)
      where
        le_lt : (x a b : A) → leb x a ≡ true → leb b a ≡ false → leb b x ≡ false
        le_lt x a b p q = elim (Bool-cases (leb b x)) [
          | inl e ↦ cc (order.trans b x a e p)
          | inr e ↦ e
        ]

    last_from :
        (pre post xs : List A) (b r : A)
        → All (λ x. leb x b ≡ true) pre
        → All (λ x. leb b x ≡ false) post
        → pick (λ x y. leb y x) xs (some b) ≡ some r
        → IsLastMax (pre ++ b ∷ (post ++ xs)) r
    unfolding pick
    last_from pre post [] b r u v e = rw append-nil (
        subst (IsLastMax (pre ++ b ∷ post)) (some-injective b r e)
          (record { before = pre; after = post; parts = refl; before_le = u; after_lt = v }))
    last_from pre post (x ∷ xs) b r u v e = elim (Bool-cases (leb b x)) [
      | inl le ↦ simp append_assoc at (
          last_from (pre ++ b ∷ post) [] xs x r
            (All-append _ pre (b ∷ post) (All-le_trans pre b x le u)
              (le, All-le_of_lt post b x le v))
            tt (rw le at e))
      | inr gt ↦ simp append_assoc at (
          last_from pre (post ++ x ∷ []) xs b r u (All-append _ post (x ∷ []) v (gt, tt))
            (rw gt at e))
    ]

    -- With `better x b = b ≤ x` the loop ends with the last greatest element.
    pub pick-IsLastMax :
        (xs : List A) (r : A) → pick (λ x y. leb y x) xs none ≡ some r → IsLastMax xs r
    unfolding pick
    pick-IsLastMax [] r e = cc
    pick-IsLastMax (x ∷ xs) r e = last_from [] [] xs x r tt tt e

    first_from :
        (pre post xs : List A) (b r : A)
        → All (λ x. leb b x ≡ false) pre
        → All (λ x. leb x b ≡ true) post
        → pick (λ x y. not (leb x y)) xs (some b) ≡ some r
        → IsFirstMax (pre ++ b ∷ (post ++ xs)) r
    unfolding pick
    first_from pre post [] b r u v e = rw append-nil (
        subst (IsFirstMax (pre ++ b ∷ post)) (some-injective b r e)
          (record { before = pre; after = post; parts = refl; before_lt = u; after_le = v }))
    first_from pre post (x ∷ xs) b r u v e = elim (Bool-cases (leb x b)) [
      | inl le ↦ simp append_assoc at (
          first_from pre (post ++ x ∷ []) xs b r u (All-append _ post (x ∷ []) v (le, tt))
            (rw le at e))
      | inr gt ↦ simp append_assoc at (
          first_from (pre ++ b ∷ post) [] xs x r
            (All-append _ pre (b ∷ post) (All-lt_trans pre b x (order.total x b gt) u)
              (gt, All-lt_of_lt post b x gt v))
            tt (rw gt at e))
    ]

    -- With `better x b = b < x` it ends with the first greatest element.
    pub pick-IsFirstMax :
        (xs : List A) (r : A) → pick (λ x y. not (leb x y)) xs none ≡ some r → IsFirstMax xs r
    unfolding pick
    pick-IsFirstMax [] r e = cc
    pick-IsFirstMax (x ∷ xs) r e = first_from [] [] xs x r tt tt e

module _ {ℓ} {A : Type ℓ} (better : A → A → Bool) where
  pub pick-some : (xs : List A) (b : A) → (r : A) × (pick better xs (some b) ≡ some r)
  unfolding pick
  pick-some [] b = (b, refl)
  pick-some (x ∷ xs) b = pick-some xs (if better x b then x else b)

  -- Nothing is picked exactly from nothing.
  pub pick-none_iff : (xs : List A) → (pick better xs none ≡ none) ↔ (xs ≡ [])
  unfolding pick
  pick-none_iff [] = ((λ e. refl), λ e. refl)
  pick-none_iff (x ∷ xs) = ((λ e. let (r, h) = pick-some xs x in cc h), λ e. cc)
