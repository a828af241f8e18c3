-- ===== src/Range/Window.antt =====
-- A planned slice lies in the body, and is the one that RFC 9110 gives to the three forms of a range.
use zeolite.Prelude.{ℕ, ◌+◌, ◌≤◌, ◌<◌, ◌≡◌, ◌≢◌, ◌⊎◌, [], ◌∷◌, ◌↔◌}
use zeolite.Text.{Text}
use zeolite.Numbers.{decimal}
use zeolite.Range.{RangePlan, slice, unsatisfiable, bypass}

-- The positions that a header with the groups `first` and `last` asks for, after RFC 9110: from the
-- first to the last, from the first on, or the final ones.
Selected : Text → Text → ℕ → ℕ → Type 0
Selected [] last total i = total ≤ i + decimal last
Selected (c ∷ first) [] total i = decimal (c ∷ first) ≤ i
Selected (c ∷ first) (d ∷ last) total i = (decimal (c ∷ first) ≤ i) × (i ≤ decimal (d ∷ last))

-- A slice has the selected positions of the body, is not empty and ends within it; a range that cannot
-- be satisfied has a number and selects none of them; a range is left to the origin only if it has no
-- number, or both and the second is the smaller.
pub Meets : Text → Text → ℕ → RangePlan → Type 0
Meets first last total (slice start end) =
    (start ≤ end)
    × (end < total)
    × ((i : ℕ) → ((start ≤ i) × (i ≤ end)) ↔ ((i < total) × Selected first last total i))
Meets first last total unsatisfiable =
    ¬ ((first ≡ []) × (last ≡ [])) × ((i : ℕ) → Selected first last total i → total ≤ i)
Meets first last total bypass =
    ((first ≡ []) × (last ≡ [])) ⊎ ((first ≢ []) × (last ≢ []) × (decimal last < decimal first))
