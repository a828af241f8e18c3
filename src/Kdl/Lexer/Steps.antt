-- ===== src/Kdl/Lexer/Steps.antt =====
-- How far the scanner of app/src/kdl.ts moves: its loops are given enough fuel, and each function leaves
-- no more text than it was given.
use zeolite.Prelude.{
  ℕ, zero, suc, ◌+◌, ◌≤◌, ◌<◌, ◌≡◌, refl, inl, inr, Bool, true, false, ◌&&◌, some, [], ◌∷◌, ◌++◌,
  arith, eqb, length, Bool-cases, Option-cases,
}
use zeolite.Prelude.Result.{Result, ok, err, ◌>>=◌}
use zeolite.Text.{Text, is_digit}
use zeolite.Kdl.Lexer.{
  Cursor, Message, out_of_fuel, KdlError, newline, at_head, not_newline, span, is_inline,
  is_ident_char, skip_inline, block_loop, gap_loop, skip_gap, space_loop, skip_space, parse_ident,
  escape, string_loop, number_text, fraction, exponent, exponent_sign, number_sign, starts_number,
}

abbrev pub burnt : Message → Bool
burnt out_of_fuel = true
burnt _ = false

-- The result leaves at most `n` units of text, or is an error other than the lack of fuel.
abbrev pub Fits : {A : Type 0} → (A → ℕ) → ℕ → Result KdlError A → Type 0
Fits left n (ok a) = left a ≤ n
Fits left n (err e) = burnt e.message ≡ false

abbrev pub left : Cursor → ℕ
left c = length c.rest

abbrev pub left_by : {A : Type 0} → A × Cursor → ℕ
left_by (a, c) = length c.rest

pub Fits-bind :
    {A B : Type 0} (size : A → ℕ) (size' : B → ℕ) (n k : ℕ) (m : Result KdlError A)
    (f : A → Result KdlError B)
    → Fits size n m
    → ((a : A) → size a ≤ n → Fits size' k (f a))
    → Fits size' k (m >>= f)
Fits-bind size size' n k (ok a) f h g = g a h
Fits-bind size size' n k (err e) f h g = h

pub Fits-mono :
    {A : Type 0} (size : A → ℕ) (n k : ℕ) (m : Result KdlError A)
    → n ≤ k
    → Fits size n m
    → Fits size k m
Fits-mono size n k (ok a) h g = omega arith
Fits-mono size n k (err e) h g = g

pub length-span : (p : ℕ → Bool) (s : Text) → length (span p s).1 ≤ length s
unfolding span
length-span p [] = omega arith
length-span p (c ∷ s) = ground (arith, length-span p s)

pub left-skip_inline : (c : Cursor) → left (skip_inline c) ≤ left c
unfolding skip_inline
left-skip_inline c = length-span is_inline c.rest

-- Two units on, or one.
two_on :
    (c d : ℕ) (s : Text) (m : Result KdlError Cursor)
    → Fits left (length s) m
    → Fits left (length (c ∷ d ∷ s)) m
two_on c d s m h = Fits-mono left (length s) (length (c ∷ d ∷ s)) m (omega arith) h

one_on :
    (c : ℕ) (s : Text) (m : Result KdlError Cursor)
    → Fits left (length s) m
    → Fits left (length (c ∷ s)) m
one_on c s m h = Fits-mono left (length s) (length (c ∷ s)) m (omega arith) h

block_loop-Fits : (depth line : ℕ) (s : Text) → Fits left (length s) (block_loop depth line s)
unfolding block_loop
block_loop-Fits depth line [] = refl
block_loop-Fits depth line (c ∷ []) = refl
block_loop-Fits zero line (c ∷ d ∷ s) = elim (Bool-cases (eqb c b'/' && eqb d b'*')) [
  | inl e ↦ rw (e, Fits, block_loop) (two_on c d s _ (block_loop-Fits 1 line s))
  | inr e ↦
      rw (e, Fits, block_loop)
        (elim (Bool-cases (eqb c b'*' && eqb d b'/')) [
          | inl q ↦ rw (q, Fits) (omega arith)
          | inr q ↦ rw (q, Fits) (one_on c (d ∷ s) _ (block_loop-Fits zero _ (d ∷ s)))
        ])
]
block_loop-Fits (suc n) line (c ∷ d ∷ s) = elim (Bool-cases (eqb c b'/' && eqb d b'*')) [
  | inl e ↦ rw (e, Fits, block_loop) (two_on c d s _ (block_loop-Fits (suc (suc n)) line s))
  | inr e ↦
      rw (e, Fits, block_loop)
        (elim (Bool-cases (eqb c b'*' && eqb d b'/')) [
          | inl q ↦ rw (q, Fits) (two_on c d s _ (block_loop-Fits n line s))
          | inr q ↦ rw (q, Fits) (one_on c (d ∷ s) _ (block_loop-Fits (suc n) _ (d ∷ s)))
        ])
]

-- One turn of `skipGap` after the spaces.
gap_turn-Fits :
    (fuel : ℕ) (at : Cursor)
    → ((c : Cursor) → left c < fuel → Fits left (left c) (gap_loop fuel c))
    → left at < suc fuel
    → (s : Text) → at.rest ≡ s
    → Fits left (left at) (elim s as (λ _. Result KdlError Cursor) [
      | [] ↦ ok at
      | x ∷ s ↦ elim s as (λ _. Result KdlError Cursor) [
        | [] ↦ ok at
        | y ∷ t ↦ elim (eqb x b'/' && eqb y b'*') as (λ _. Result KdlError Cursor) [
          | true ↦ block_loop 0 at.line t >>= gap_loop fuel
          | false ↦ ok at
        ]
      ]
    ])
gap_turn-Fits fuel at again h [] e = omega arith
gap_turn-Fits fuel at again h (x ∷ []) e = omega arith
gap_turn-Fits fuel at again h (x ∷ y ∷ t) e = elim (Bool-cases (eqb x b'/' && eqb y b'*')) [
  | inr q ↦ rw q (omega arith)
  | inl q ↦ rw q (
      Fits-bind left left (length t) (left at) (block_loop 0 at.line t) (gap_loop fuel)
        (block_loop-Fits 0 at.line t)
        (λ c k.
          Fits-mono left (left c) (left at) (gap_loop fuel c) (ground (arith, e))
            (again c (ground (arith, e)))))
]

gap_loop-Fits : (fuel : ℕ) (c : Cursor) → left c < fuel → Fits left (left c) (gap_loop fuel c)
unfolding gap_loop
gap_loop-Fits zero c h = absurd (omega arith)
gap_loop-Fits (suc fuel) c h =
    Fits-mono left (left (skip_inline c)) (left c) _ (left-skip_inline c) (
      gap_turn-Fits fuel (skip_inline c) (gap_loop-Fits fuel) (omega (arith, left-skip_inline c))
        (skip_inline c).rest refl)

pub skip_gap-Fits : (c : Cursor) → Fits left (left c) (skip_gap c)
unfolding skip_gap
skip_gap-Fits c = gap_loop-Fits (suc (length c.rest)) c (omega arith)

comment_taken :
    (x : ℕ) (s : Text) → eqb x newline ≡ false → length (span not_newline (x ∷ s)).1 ≤ length s
unfolding span
comment_taken x s q = ground (arith, length-span not_newline s)

-- One turn of `skipSpace` after the gap.
space_turn-Fits :
    (fuel : ℕ) (at : Cursor)
    → ((c : Cursor) → left c < fuel → Fits left (left c) (space_loop fuel c))
    → left at < suc fuel
    → (s : Text) → at.rest ≡ s
    → Fits left (left at) (elim s as (λ _. Result KdlError Cursor) [
      | [] ↦ ok at
      | x ∷ s ↦ elim (eqb x newline) as (λ _. Result KdlError Cursor) [
        | true ↦ space_loop fuel (record { rest = s; line = at.line + 1 })
        | false ↦ elim (eqb x b'/' && at_head b'/' s) as (λ _. Result KdlError Cursor) [
          | true ↦ space_loop fuel (record at { rest = (span not_newline (x ∷ s)).1 })
          | false ↦ ok at
        ]
      ]
    ])
space_turn-Fits fuel at again h [] e = omega arith
space_turn-Fits fuel at again h (x ∷ s) e = elim (Bool-cases (eqb x newline)) [
  | inl q ↦
      rw (q, Fits)
        (Fits-mono left (length s) (left at) _ (ground (arith, e))
          (again (record { rest = s; line = at.line + 1 }) (ground (arith, e))))
  | inr q ↦
      rw (q, Fits)
        (elim (Bool-cases (eqb x b'/' && at_head b'/' s)) [
          | inr r ↦ rw (r, Fits) (omega arith)
          | inl r ↦
              let comment : Cursor = record at { rest = (span not_newline (x ∷ s)).1 } in
              let shorter : left comment < left at = ground (arith, e, comment_taken x s q) in
              rw (r, Fits)
                (Fits-mono left (left comment) (left at) _ (omega arith)
                  (again comment (omega arith)))
        ])
]

space_loop-Fits : (fuel : ℕ) (c : Cursor) → left c < fuel → Fits left (left c) (space_loop fuel c)
unfolding space_loop
space_loop-Fits zero c h = absurd (omega arith)
space_loop-Fits (suc fuel) c h =
    Fits-bind left left (left c) (left c) (skip_gap c) _ (skip_gap-Fits c) (λ at k.
      Fits-mono left (left at) (left c) _ k
        (space_turn-Fits fuel at (space_loop-Fits fuel) (omega arith) at.rest refl))

pub skip_space-Fits : (c : Cursor) → Fits left (left c) (skip_space c)
unfolding skip_space
skip_space-Fits c = space_loop-Fits (suc (length c.rest)) c (omega arith)

-- A name takes at least one unit.
pub parse_ident-Fits :
    (c : Cursor) (x : ℕ) (s : Text) → c.rest ≡ x ∷ s → Fits left_by (length s) (parse_ident c)
unfolding parse_ident
parse_ident-Fits c x s e = ground (arith, length-span is_ident_char s)

pub string_loop-Fits : (line : ℕ) (out s : Text) → Fits left_by (length s) (string_loop line out s)
unfolding string_loop
string_loop-Fits line out [] = refl
string_loop-Fits line out (c ∷ []) = ground arith
string_loop-Fits line out (c ∷ e ∷ t) = elim (Bool-cases (eqb c newline)) [
  | inl q ↦ rw (q, Fits, string_loop) refl
  | inr q ↦
      rw (q, Fits, string_loop)
        (elim (Bool-cases (eqb c b'"')) [
          | inl r ↦ rw (r, Fits) (omega arith)
          | inr r ↦
              rw (r, Fits)
                (elim (Bool-cases (eqb c 92)) [
                  | inr u ↦
                      rw (u, Fits)
                        (Fits-mono left_by (length (e ∷ t)) (length (c ∷ e ∷ t)) _ (omega arith)
                          (string_loop-Fits line (out ++ c ∷ []) (e ∷ t)))
                  | inl u ↦
                      rw (u, Fits)
                        (elim (Bool-cases (eqb e newline)) [
                          | inl v ↦ rw (v, Fits) refl
                          | inr v ↦
                              rw (v, Fits)
                                (elim (Option-cases (escape e)) [
                                  | inl w ↦ rw (w, Fits) refl
                                  | inr (x, w) ↦
                                      rw (w, Fits)
                                        (Fits-mono left_by (length t) (length (c ∷ e ∷ t)) _
                                          (omega arith) (string_loop-Fits line (out ++ x ∷ []) t))
                                ])
                        ])
                ])
        ])
]

length-fraction : (s a r : Text) → fraction s ≡ some (a, r) → length r ≤ length s
length-fraction [] a r h = ground arith
length-fraction (c ∷ s) a r h = ground (arith, length-span is_digit s)

length-exponent_sign : (s : Text) → length (exponent_sign s).1 ≤ length s
length-exponent_sign [] = omega arith
length-exponent_sign (c ∷ s) = ground arith

length-exponent : (s : Text) → length (exponent s).1 ≤ length s
length-exponent [] = omega arith
length-exponent (c ∷ s) =
    ground (arith, length-exponent_sign s, length-span is_digit (exponent_sign s).1)

-- A number that starts as one takes at least one unit.
pub number_digits_left :
    (c : ℕ) (s : Text)
    → starts_number (c ∷ s) ≡ true
    → length (span is_digit (number_sign (c ∷ s)).1).1 ≤ length s
unfolding span
number_digits_left c s h = ground (arith, length-span is_digit s)

pub length-number_text :
    (c : ℕ) (s text r : Text)
    → starts_number (c ∷ s) ≡ true
    → number_text (c ∷ s) ≡ some (text, r)
    → length r ≤ length s
unfolding number_text
length-number_text c s text r d h =
    let t : Text = (span is_digit (number_sign (c ∷ s)).1).1 in
    elim (Option-cases (fraction t)) [
      | inl e ↦ ground arith
      | inr ((a, u), e) ↦
          ground (arith, number_digits_left c s d, length-fraction t a u e, length-exponent u)
    ]
