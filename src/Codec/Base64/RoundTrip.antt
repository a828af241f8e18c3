-- ===== src/Codec/Base64/RoundTrip.antt =====
-- base64url reads back what it wrote.
use zeolite.Prelude.{
  ℕ, ◌/◌, ◌%◌, ◌^◌, ◌≡◌, ◌≢◌, refl, ◌∙◌, some, [], ◌∷◌, arith, eqb, length, All, Bool-cases,
  eqb_iff, inl, inr,
}
use zeolite.Codec.{Bytes, IsByte}
use zeolite.Codec.Base64.{
  group, b64u_encode, push_digit, with_byte, decode_bits, no_rest, b64u_decode,
}
use zeolite.Codec.Base64.Turns.{
  first_byte, second_byte, third_byte, two_letters, three_letters, four_letters, group_letter,
  digit-letter,
}

-- A group has its three bytes back; where a byte is absent, the bits left over are zero.
group_bytes :
    (b0 b1 b2 : ℕ)
    → IsByte b0
    → IsByte b1
    → IsByte b2
    → let n = group b0 b1 b2 in
      (first_byte (n / 2 ^ 18 % 64) (n / 2 ^ 12 % 64) ≡ b0)
      × (second_byte (n / 2 ^ 12 % 64) (n / 2 ^ 6 % 64) ≡ b1)
      × (third_byte (n / 2 ^ 6 % 64) (n % 64) ≡ b2)
unfolding first_byte second_byte third_byte
group_bytes b0 b1 b2 h0 h1 h2 = (omega arith, omega arith, omega arith)

-- The letters end well where the last one has no bit left over.
module _ (buf va vb : ℕ) where
  ends_at_four :
      vb % 2 ^ 4 ≡ 0 → decode_bits no_rest [] (push_digit (push_digit buf va) vb) 4 ≡ some []
  unfolding decode_bits
  ends_at_four h = ground arith

  ends_at_two :
      vb % 2 ^ 2 ≡ 0 → decode_bits no_rest [] (push_digit (push_digit buf va) vb) 2 ≡ some []
  unfolding decode_bits
  ends_at_two h = ground arith

one_byte_pad : (b0 : ℕ) → group b0 0 0 / 2 ^ 12 % 64 % 2 ^ 4 ≡ 0
one_byte_pad b0 = omega arith

two_bytes_pad : (b0 b1 : ℕ) → group b0 b1 0 / 2 ^ 6 % 64 % 2 ^ 2 ≡ 0
two_bytes_pad b0 b1 = omega arith

decode_bits-encode :
    (bytes : Bytes) (buf : ℕ)
    → All IsByte bytes
    → decode_bits no_rest (b64u_encode bytes) buf 0 ≡ some bytes
unfolding b64u_encode with_byte
decode_bits-encode [] buf h = unfold decode_bits in refl
decode_bits-encode (b0 ∷ []) buf (h0, h) =
    two_letters no_rest _ _ (group b0 0 0 / 2 ^ 18 % 64) (group b0 0 0 / 2 ^ 12 % 64)
      (group_letter _ _) (group_letter _ _) [] buf
    ∙ rw
        (
          ends_at_four buf _ _ (one_byte_pad b0),
          (group_bytes b0 0 0 h0 (omega arith) (omega arith)).0,
        )
        refl
decode_bits-encode (b0 ∷ b1 ∷ []) buf (h0, (h1, h)) =
    three_letters no_rest _ _ (group b0 b1 0 / 2 ^ 18 % 64) (group b0 b1 0 / 2 ^ 12 % 64)
      (group_letter _ _) (group_letter _ _) _ (group b0 b1 0 / 2 ^ 6 % 64) (group_letter _ _) [] buf
    ∙ rw
        (
          ends_at_two _ _ _ (two_bytes_pad b0 b1),
          (group_bytes b0 b1 0 h0 h1 (omega arith)).0,
          (group_bytes b0 b1 0 h0 h1 (omega arith)).1,
        )
        refl
decode_bits-encode (b0 ∷ b1 ∷ b2 ∷ bytes) buf (h0, (h1, (h2, h))) =
    four_letters no_rest _ _ (group b0 b1 b2 / 2 ^ 18 % 64) (group b0 b1 b2 / 2 ^ 12 % 64)
      (group_letter _ _) (group_letter _ _) _ (group b0 b1 b2 / 2 ^ 6 % 64) (group_letter _ _) _
      (group b0 b1 b2 % 64) (digit-letter _ (omega arith)) (b64u_encode bytes) buf
    ∙ rw (decode_bits-encode bytes _ h) (
        rw
          (
            (group_bytes b0 b1 b2 h0 h1 h2).0,
            (group_bytes b0 b1 b2 h0 h1 h2).1,
            (group_bytes b0 b1 b2 h0 h1 h2).2,
          )
          refl)

length-b64u_encode : (bytes : Bytes) → length (b64u_encode bytes) % 4 ≢ 1
unfolding b64u_encode
length-b64u_encode [] e = absurd (omega (arith, e))
length-b64u_encode (b0 ∷ []) e = absurd (omega (arith, e))
length-b64u_encode (b0 ∷ b1 ∷ []) e = absurd (omega (arith, e))
length-b64u_encode (b0 ∷ b1 ∷ b2 ∷ bytes) e = length-b64u_encode bytes (omega (arith, e))

-- base64url reads back every byte string that it wrote.
pub b64u_decode-b64u_encode :
    (bytes : Bytes) → All IsByte bytes → b64u_decode (b64u_encode bytes) ≡ some bytes
unfolding b64u_decode
b64u_decode-b64u_encode bytes h = elim (Bool-cases (eqb (length (b64u_encode bytes) % 4) 1)) [
  | inl one ↦ absurd (length-b64u_encode bytes ((eqb_iff _ 1).0 one))
  | inr other ↦ rw other (decode_bits-encode bytes 0 h)
]
