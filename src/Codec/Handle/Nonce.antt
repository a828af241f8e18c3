-- ===== src/Codec/Handle/Nonce.antt =====
-- The nonce of a navigation handle of app/src/codec.ts: random bytes, or the time and a count where the
-- browser has none to give.
use zeolite.Prelude.{
  ℕ, zero, suc, ◌+◌, ◌/◌, ◌%◌, ◌≡◌, refl, true, Option, none, some, [], ◌∷◌, ◌++◌, ltb, all_below,
  if◌then◌else◌, Bool-cases, inl, inr, arith,
}
use zeolite.Text.{Text, includes_unit}
use zeolite.Codec.{Bytes}
use zeolite.Codec.Base64.{letter, b64u_encode}
use zeolite.Codec.Fields.{Lacks, Lacks-append, other_letter, b64u_encode-Lacks}
use zeolite.Codec.Handle.{line_end}

-- A digit of `toString(36)`.
unfoldable pub digit36 : ℕ → ℕ
digit36 d = if ltb d 10 then 48 + d else 87 + d

unfoldable pub digits36 : ℕ → ℕ → Text
digits36 zero n = digit36 (n % 36) ∷ []
digits36 (suc fuel) n =
    let rest = digits36 fuel (n / 36) in
    if ltb n 36 then digit36 n ∷ [] else rest ++ digit36 (n % 36) ∷ []

-- `n.toString(36)`, whose digits are no more than the number is large.
abbrev pub print36 : ℕ → Text
print36 n = digits36 n n

-- The nonce and the count after it; `random` is what the browser gives.
unfoldable pub new_nav_handle_nonce : Option Bytes → ℕ → ℕ → Text × ℕ
new_nav_handle_nonce (some random) now fallback = (b64u_encode random, fallback)
new_nav_handle_nonce none now fallback =
    (print36 now ++ b'-' ∷ print36 (suc fallback), suc fallback)

no_letter : all_below (other_letter line_end) 64 ≡ true
unfolding all_below other_letter letter
no_letter = refl

digit36-Lacks : (d : ℕ) → Lacks line_end (digit36 d ∷ [])
unfolding Lacks includes_unit digit36
digit36-Lacks d = ground arith

digits36-Lacks : (fuel n : ℕ) → Lacks line_end (digits36 fuel n)
unfolding digits36
digits36-Lacks zero n = digit36-Lacks (n % 36)
digits36-Lacks (suc fuel) n = elim (Bool-cases (ltb n 36)) [
  | inl small ↦ rw small (digit36-Lacks n)
  | inr large ↦
      rw large (Lacks-append line_end _ _ (digits36-Lacks fuel (n / 36)) (digit36-Lacks (n % 36)))
]

dash : Lacks line_end (b'-' ∷ [])
unfolding Lacks includes_unit
dash = refl

-- A nonce is one line, however it is made.
pub new_nav_handle_nonce-Lacks :
    (random : Option Bytes) (now fallback : ℕ)
    → Lacks line_end (new_nav_handle_nonce random now fallback).0
unfolding new_nav_handle_nonce
new_nav_handle_nonce-Lacks (some random) now fallback = b64u_encode-Lacks line_end no_letter random
new_nav_handle_nonce-Lacks none now fallback =
    Lacks-append line_end (print36 now) _ (digits36-Lacks now now)
      (Lacks-append line_end (b'-' ∷ []) _ dash (digits36-Lacks (suc fallback) (suc fallback)))
