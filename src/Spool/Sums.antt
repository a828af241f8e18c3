-- ===== src/Spool/Sums.antt =====
-- What the calls of a spool table add up to.
use zeolite.Prelude.{
  ℕ, ◌+◌, ◌≡◌, refl, false, List, [], ◌∷◌, none, some, eqb_iff, ◌==◌, nat_eq, Bool-cases, inl, inr,
  All, arith,
}
use zeolite.Prelude.Maps.{get, set}
use zeolite.Spool.{reading, held, Spool, is_reading, is_held}

module _ (weight : Spool → ℕ) where
  -- A number for each call, added up.
  unfoldable pub sum : List (ℕ × Spool) → ℕ
  sum [] = 0
  sum ((i, c) ∷ m) = weight c + sum m

  pub sum-set :
      (i : ℕ) (c d : Spool) (m : List (ℕ × Spool))
      → get i m ≡ some c
      → sum (set i d m) + weight c ≡ sum m + weight d
  unfolding sum get set
  sum-set i c d [] e = absurd cc
  sum-set i c d ((j, x) ∷ m) e = elim (Bool-cases (j == i)) [
    | inl same ↦ ground (arith, e, same)
    | inr other ↦ ground (arith, e, other, sum-set i c d m)
  ]

  pub sum-new :
      (i : ℕ) (d : Spool) (m : List (ℕ × Spool))
      → get i m ≡ none
      → sum (set i d m) ≡ sum m + weight d
  unfolding sum get set
  sum-new i d [] e = omega arith
  sum-new i d ((j, x) ∷ m) e = elim (Bool-cases (j == i)) [
    | inl same ↦ absurd (ground (arith, e, same))
    | inr other ↦ ground (arith, e, other, sum-new i d m)
  ]

-- Every call, and every number of a call.
module _ (Q : ℕ → Spool → Type 0) where
  unfoldable pub Each : List (ℕ × Spool) → Type 0
  Each m = All (λ p. Q p.0 p.1) m

  pub get-Each : (i : ℕ) (c : Spool) (m : List (ℕ × Spool)) → Each m → get i m ≡ some c → Q i c
  unfolding Each get
  get-Each i c [] v e = absurd cc
  get-Each i c ((j, x) ∷ m) (h, v) e = ground (arith, h, e, eqb_iff j i, get-Each i c m v)

  pub set-Each : (i : ℕ) (d : Spool) (m : List (ℕ × Spool)) → Each m → Q i d → Each (set i d m)
  unfolding Each set
  set-Each i d [] v h = (h, tt)
  set-Each i d ((j, x) ∷ m) (u, v) h = elim (Bool-cases (j == i)) [
    | inl same ↦ rw same (rw ((eqb_iff j i).0 same) h, v)
    | inr other ↦ rw other (u, set-Each i d m v h)
  ]

pub Each-mono :
    (Q R : ℕ → Spool → Type 0) (m : List (ℕ × Spool))
    → ((i : ℕ) (c : Spool) → Q i c → R i c)
    → Each Q m
    → Each R m
unfolding Each
Each-mono Q R [] f v = tt
Each-mono Q R ((i, c) ∷ m) f (h, v) = (f i c h, Each-mono Q R m f v)

-- The bytes that a call has in each counter.
unfoldable pub held_bytes : Spool → ℕ
held_bytes c = elim c.phase [ held ↦ c.total | _ ↦ 0 ]

unfoldable pub reading_bytes : Spool → ℕ
reading_bytes c = elim c.phase [ reading ↦ c.reserved | _ ↦ 0 ]

-- A call that is over holds nothing.
unfoldable pub IsOver : Spool → Type 0
IsOver c = (is_reading c.phase ≡ false) × (is_held c.phase ≡ false)

over_counts : (c : Spool) → IsOver c → (held_bytes c ≡ 0) × (reading_bytes c ≡ 0)
unfolding IsOver is_reading is_held held_bytes reading_bytes
over_counts c h = ground (arith, h)

pub over_sum :
    (m : List (ℕ × Spool))
    → All (λ p. IsOver p.1) m
    → (sum held_bytes m ≡ 0) × (sum reading_bytes m ≡ 0)
unfolding sum
over_sum [] h = (refl, refl)
over_sum ((i, c) ∷ m) (u, h) = omega (arith, over_counts c u, over_sum m h)
