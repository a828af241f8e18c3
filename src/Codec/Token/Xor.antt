-- ===== src/Codec/Token/Xor.antt =====
-- `bit_xor` undoes itself, and `bit_or` and `bit_xor` give 0 only for equal digits.
use Prim.Native.Nat.{bit_or, bit_xor, digits, differ, bit_xor-bitwise, bit_or-bitwise}
use zeolite.Codec.{IsByte}
use zeolite.Prelude.{
  ℕ, zero, suc, ◌+◌, ◌*◌, ◌/◌, ◌%◌, ◌≤◌, ◌<◌, ◌≡◌, refl, sym, ap, ◌∙◌, ◌⊎◌, inl, inr, max, arith,
}

-- A count of digits above the first number serves as well as that number.
digits_count :
    (z : ℕ → ℕ) (f : ℕ → ℕ → ℕ) (n m a b : ℕ) → a ≤ n → a ≤ m → digits z f n a b ≡ digits z f m a b
digits_count z f zero zero a b p q = refl
digits_count z f zero (suc m) zero b p q = refl
digits_count z f zero (suc m) (suc a) b p q = absurd (omega arith)
digits_count z f (suc n) zero zero b p q = refl
digits_count z f (suc n) zero (suc a) b p q = absurd (omega arith)
digits_count z f (suc n) (suc m) zero b p q = refl
digits_count z f (suc n) (suc m) (suc a) b p q =
    omega (arith, digits_count z f n m (suc a / 2) (b / 2) (omega arith) (omega arith))

zero-bit_xor : (b : ℕ) → bit_xor 0 b ≡ b
zero-bit_xor b = bit_xor-bitwise 0 b

zero-bit_or : (b : ℕ) → bit_or 0 b ≡ b
zero-bit_or b = bit_or-bitwise 0 b

differ_zero : (b : ℕ) → differ 0 b ≡ b
differ_zero b = refl

bit_xor_step : (a b : ℕ) → bit_xor a b ≡ bit_xor (a / 2) (b / 2) * 2 + differ (a % 2) (b % 2)
bit_xor_step zero b = omega (arith, zero-bit_xor b, zero-bit_xor (b / 2), differ_zero (b % 2))
bit_xor_step (suc a) b = omega (
  arith,
  bit_xor-bitwise (suc a) b,
  bit_xor-bitwise (suc a / 2) (b / 2),
  digits_count (λ c. c) differ a (suc a / 2) (suc a / 2) (b / 2) (omega arith) (omega arith),
)

bit_or_step : (a b : ℕ) → bit_or a b ≡ bit_or (a / 2) (b / 2) * 2 + max (a % 2) (b % 2)
bit_or_step zero b = omega (arith, zero-bit_or b, zero-bit_or (b / 2))
bit_or_step (suc a) b = omega (
  arith,
  bit_or-bitwise (suc a) b,
  bit_or-bitwise (suc a / 2) (b / 2),
  digits_count (λ c. c) max a (suc a / 2) (suc a / 2) (b / 2) (omega arith) (omega arith),
)

IsBit : ℕ → Type 0
IsBit x = (x ≡ 0) ⊎ (x ≡ 1)

IsBit-mod : (a : ℕ) → IsBit (a % 2)
unfolding IsBit
IsBit-mod a = ground arith

differ-IsBit : (x y : ℕ) → IsBit x → IsBit y → IsBit (differ x y)
unfolding IsBit
differ-IsBit x y (inl p) (inl q) = rw (p, q) (inl refl)
differ-IsBit x y (inl p) (inr q) = rw (p, q) (inr refl)
differ-IsBit x y (inr p) (inl q) = rw (p, q) (inr refl)
differ-IsBit x y (inr p) (inr q) = rw (p, q) (inl refl)

differ_twice : (x y : ℕ) → IsBit x → IsBit y → differ (differ x y) y ≡ x
unfolding IsBit
differ_twice x y (inl p) (inl q) = rw (p, q) refl
differ_twice x y (inl p) (inr q) = rw (p, q) refl
differ_twice x y (inr p) (inl q) = rw (p, q) refl
differ_twice x y (inr p) (inr q) = rw (p, q) refl

-- The lowest digit of an exclusive or, and the digits above it.
bit_xor_digits :
    (a b : ℕ)
    → (bit_xor a b / 2 ≡ bit_xor (a / 2) (b / 2)) × (bit_xor a b % 2 ≡ differ (a % 2) (b % 2))
unfolding IsBit
bit_xor_digits a b =
    let step = bit_xor_step a b in
    let low = differ-IsBit (a % 2) (b % 2) (IsBit-mod a) (IsBit-mod b) in ground (arith, step, low)

twice_within : (n a b : ℕ) → a ≤ n → b ≤ n → bit_xor (bit_xor a b) b ≡ a
twice_within zero zero zero p q = refl
twice_within zero (suc a) b p q = absurd (omega arith)
twice_within zero zero (suc b) p q = absurd (omega arith)
twice_within (suc n) a b p q =
    let (high, low) = bit_xor_digits a b in
    let below = twice_within n (a / 2) (b / 2) (omega arith) (omega arith) in
    let same = differ_twice (a % 2) (b % 2) (IsBit-mod a) (IsBit-mod b) in
    bit_xor_step (bit_xor a b) b ∙ rw (high, low, below, same) (omega arith)

pub bit_xor_twice : (a b : ℕ) → bit_xor (bit_xor a b) b ≡ a
bit_xor_twice a b = twice_within (a + b) a b (omega arith) (omega arith)

pub bit_xor_self : (a : ℕ) → bit_xor a a ≡ 0
bit_xor_self a = ap (λ c. bit_xor c a) (sym (zero-bit_xor a)) ∙ bit_xor_twice 0 a

pub bit_xor_zero : (a b : ℕ) → bit_xor a b ≡ 0 → a ≡ b
bit_xor_zero a b h = sym (bit_xor_twice a b) ∙ ap (λ c. bit_xor c b) h ∙ zero-bit_xor b

or_zero_within : (n a b : ℕ) → a ≤ n → b ≤ n → bit_or a b ≡ 0 → (a ≡ 0) × (b ≡ 0)
or_zero_within zero a b p q h = (omega arith, omega arith)
or_zero_within (suc n) a b p q h =
    let step = bit_or_step a b in
    let below =
      or_zero_within n (a / 2) (b / 2) (omega arith) (omega arith) (omega (arith, step, h)) in
    (omega (arith, step, h, below.0), omega (arith, step, h, below.1))

pub bit_or_zero : (a b : ℕ) → bit_or a b ≡ 0 → (a ≡ 0) × (b ≡ 0)
bit_or_zero a b = or_zero_within (a + b) a b (omega arith) (omega arith)

pub bit_or_zeros : bit_or 0 0 ≡ 0
bit_or_zeros = refl

-- 2 to the power of a count.
double : ℕ → ℕ
double zero = 1
double (suc k) = 2 * double k

bit_xor_lt : (k a b : ℕ) → a < double k → b < double k → bit_xor a b < double k
unfolding double
bit_xor_lt zero zero zero p q = omega arith
bit_xor_lt zero (suc a) b p q = absurd (omega arith)
bit_xor_lt zero zero (suc b) p q = absurd (omega arith)
bit_xor_lt (suc k) a b p q =
    omega (arith, bit_xor_digits a b, bit_xor_lt k (a / 2) (b / 2) (omega arith) (omega arith))

pub bit_xor-IsByte : (a b : ℕ) → IsByte a → IsByte b → IsByte (bit_xor a b)
unfolding double
bit_xor-IsByte a b = bit_xor_lt 8 a b
