-- ===== src/Range.antt =====
-- app/src/range.ts: the slice of a stored body that a `Range` header asks for. `Number` on digits is
-- exact below 2^53, and beyond that it stays above every length that a stored body has.
pub mod Window
use zeolite.Prelude.{
  ℕ, ◌-◌, Bool, true, false, ◌&&◌, List, [], ◌∷◌, Option, none, some, min, ltb, leb, eqb, length,
  drop, if◌then◌else◌,
}
use zeolite.Text.{Text, txt, starts_with, includes_unit, trim, is_digit}
use zeolite.Numbers.{decimal}

pub data RangePlan : Type 0 where
  slice : ℕ → ℕ → RangePlan
  unsatisfiable bypass : RangePlan

-- The digits at the front, and what follows them.
unfoldable pub digits_first : Text → Text × Text
digits_first [] = ([], [])
digits_first (c ∷ s) =
    let (ds, rest) = digits_first s in if is_digit c then (c ∷ ds, rest) else ([], c ∷ s)

-- The groups of `/^bytes=(\d*)-(\d*)$/`.
unfoldable pub last_group : Text → Text → Option (Text × Text)
last_group first [] = none
last_group first (c ∷ s) =
    let (last, end) = digits_first s in
    elim end [ [] ↦ if eqb c b'-' then some (first, last) else none | _ ∷ _ ↦ none ]

unfoldable pub range_groups : Text → Option (Text × Text)
range_groups s =
    let (first, rest) = digits_first (drop 6 s) in
    if starts_with s (txt "bytes=") then last_group first rest else none

-- The checks on a start and an end.
unfoldable pub check_window : ℕ → ℕ → ℕ → RangePlan
check_window start end total =
    if leb total start then unsatisfiable else if ltb end start then bypass else slice start end

unfoldable pub plan_groups : Text → Text → ℕ → RangePlan
plan_groups [] [] total = bypass
plan_groups [] (d ∷ last) total =
    let suffix = decimal (d ∷ last) in
    if eqb suffix 0 then unsatisfiable else check_window (total - suffix) (total - 1) total
plan_groups (c ∷ first) [] total = check_window (decimal (c ∷ first)) (total - 1) total
plan_groups (c ∷ first) (d ∷ last) total =
    check_window (decimal (c ∷ first)) (min (decimal (d ∷ last)) (total - 1)) total

unfoldable pub plan_range : Text → ℕ → RangePlan
plan_range range_header total =
    if includes_unit b',' range_header then bypass else elim (range_groups (trim range_header)) [
      | none ↦ bypass
      | some (first, last) ↦ plan_groups first last total
    ]
