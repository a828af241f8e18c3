-- ===== src/Numbers.antt =====
-- `Number` on the texts that the engine converts: digits, read by `decimal`. Where a file supplies any
-- number, a component takes the type of numbers and its order as arguments.
use zeolite.Prelude.{
  ℕ, zero, suc, [], ◌∷◌, ◌++◌, ◌+◌, ◌*◌, ◌-◌, ◌/◌, ◌%◌, ◌≤◌, ◌≡◌, refl, true, ltb, leb, all, arith,
  if◌then◌else◌, Bool-cases, inl, inr,
}
use zeolite.Prelude.Pick.{IsPreorder}
use zeolite.Text.{Text, is_digit}

decimal_from : ℕ → Text → ℕ
decimal_from n [] = n
decimal_from n (c ∷ s) = decimal_from (n * 10 + (c - 48)) s

-- `Number` of a text of decimal digits.
unfoldable pub decimal : Text → ℕ
unfolding decimal_from
decimal s = decimal_from 0 s

pub leb-IsPreorder : IsPreorder leb
leb-IsPreorder = record { total = λ a b h. ground arith; trans = λ a b c p q. ground arith }

-- `String` of a number: its digits, of which there are no more than the number is large.
print_digits : ℕ → ℕ → Text
print_digits zero n = (48 + n % 10) ∷ []
print_digits (suc fuel) n =
    let rest = print_digits fuel (n / 10) in
    if ltb n 10 then (48 + n) ∷ [] else rest ++ (48 + n % 10) ∷ []

unfoldable pub print : ℕ → Text
unfolding print_digits
print n = print_digits n n

decimal_from-append :
    (m c : ℕ) (s : Text) → decimal_from m (s ++ c ∷ []) ≡ decimal_from m s * 10 + (c - 48)
unfolding decimal_from
decimal_from-append m c [] = refl
decimal_from-append m c (d ∷ s) = decimal_from-append (m * 10 + (d - 48)) c s

decimal_from-print_digits : (fuel n : ℕ) → n ≤ fuel → decimal_from 0 (print_digits fuel n) ≡ n
unfolding print_digits
decimal_from-print_digits zero n h = unfold decimal_from in omega arith
decimal_from-print_digits (suc fuel) n h = elim (Bool-cases (ltb n 10)) [
  | inl small ↦ rw small (unfold decimal_from in omega arith)
  | inr large ↦
      rw (large, decimal_from-append 0 (48 + n % 10) (print_digits fuel (n / 10)))
        (ground (arith, large, decimal_from-print_digits fuel (n / 10)))
]

-- `Number` reads back what `String` wrote.
pub decimal-print : (n : ℕ) → decimal (print n) ≡ n
unfolding decimal print
decimal-print n = decimal_from-print_digits n n (omega arith)

all-append :
    (s : Text) (c : ℕ)
    → all is_digit s ≡ true
    → is_digit c ≡ true
    → all is_digit (s ++ c ∷ []) ≡ true
all-append [] c h e = ground (arith, e)
all-append (d ∷ s) c h e = ground (arith, h, e, all-append s c)

digits-print_digits : (fuel n : ℕ) → all is_digit (print_digits fuel n) ≡ true
unfolding print_digits
digits-print_digits zero n = ground arith
digits-print_digits (suc fuel) n = elim (Bool-cases (ltb n 10)) [
  | inl small ↦ rw small (ground (arith, small))
  | inr large ↦ rw large (
      all-append (print_digits fuel (n / 10)) (48 + n % 10) (digits-print_digits fuel (n / 10))
        (ground arith))
]

pub all-print : (n : ℕ) → all is_digit (print n) ≡ true
unfolding print
all-print n = digits-print_digits n n
