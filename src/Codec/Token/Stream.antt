-- ===== src/Codec/Token/Stream.antt =====
-- The key stream: applying it twice gives the payload back, and the decoder's kept blocks change nothing.

use zeolite.Prelude.{
  ℕ, suc, ◌+◌, ◌/◌, ◌≡◌, refl, ap, some, List, [], ◌∷◌, arith, or_else, length, eqb_iff, Bool-cases,
  Option-cases, ◌==◌, nat_eq, inl, inr,
}
use zeolite.Prelude.Maps.{get, set, get-set}
use zeolite.Codec.{Bytes}
use zeolite.Codec.Token.{keystream_block, stream_byte, cipher, decipher}
use zeolite.Codec.Token.Xor.{bit_xor_twice}

module _ (key iv : Bytes) where
  pub cipher_twice : (i : ℕ) (d : Bytes) → cipher key iv i (cipher key iv i d) ≡ d
  unfolding cipher
  cipher_twice i [] = refl
  cipher_twice i (b ∷ d) =
      rw (bit_xor_twice b (stream_byte (keystream_block key iv (i / 8)) i), cipher_twice (i + 1) d)
        refl

  pub length-cipher : (i : ℕ) (d : Bytes) → length (cipher key iv i d) ≡ length d
  unfolding cipher
  length-cipher i [] = refl
  length-cipher i (b ∷ d) = ap suc (length-cipher (i + 1) d)

  -- Every kept block is the block of its number.
  IsKept : List (ℕ × Bytes) → Type 0
  IsKept blocks = (j : ℕ) (ks : Bytes) → get j blocks ≡ some ks → ks ≡ keystream_block key iv j

  kept_block :
      (blocks : List (ℕ × Bytes)) (j : ℕ)
      → IsKept blocks
      → or_else (get j blocks) (keystream_block key iv j) ≡ keystream_block key iv j
  unfolding IsKept
  kept_block blocks j v = elim (Option-cases (get j blocks)) [
    | inl n ↦ rw n refl
    | inr (ks, e) ↦ rw e (v j ks e)
  ]

  set-IsKept :
      (blocks : List (ℕ × Bytes)) (j : ℕ)
      → IsKept blocks
      → IsKept (set j (keystream_block key iv j) blocks)
  unfolding IsKept
  set-IsKept blocks j v k ks e =
      let found = rw (get-set j k (keystream_block key iv j) blocks) at e in
      elim (Bool-cases (j == k)) [
        | inl same ↦ ground (arith, v k ks, found, same, eqb_iff j k)
        | inr other ↦ ground (arith, v k ks, found, other)
      ]

  decipher_loop :
      (i : ℕ) (blocks : List (ℕ × Bytes)) (ct : Bytes)
      → IsKept blocks
      → decipher key iv i blocks ct ≡ cipher key iv i ct
  unfolding cipher decipher
  decipher_loop i blocks [] v = refl
  decipher_loop i blocks (c ∷ ct) v =
      rw (kept_block blocks (i / 8) v, decipher_loop (i + 1) _ ct (set-IsKept blocks (i / 8) v))
        refl

  -- The decoder that keeps the blocks it has computed gives what the key stream gives.
  pub decipher-cipher : (ct : Bytes) → decipher key iv 0 [] ct ≡ cipher key iv 0 ct
  unfolding IsKept get
  decipher-cipher ct = decipher_loop 0 [] ct (λ j ks e. absurd cc)
