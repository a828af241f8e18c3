-- ===== src/Codec/Base64.antt =====
-- base64url as app/src/codec.ts writes and reads it.
mod Turns
pub mod RoundTrip
pub mod Canonical
use zeolite.Prelude.{
  ℕ, ◌+◌, ◌-◌, ◌*◌, ◌/◌, ◌%◌, ◌^◌, Bool, true, false, ◌&&◌, not, Option, none, some, List, [], ◌∷◌,
  ltb, leb, eqb, or_else, length, get_elem?, if◌then◌else◌,
}
use zeolite.Text.{Text, txt, index_of}
use zeolite.Codec.{Bytes}

abbrev pub b64url : Text
b64url = txt "ABCDEFGHIJKLMNOPQRSTUVWXYZabcdefghijklmnopqrstuvwxyz0123456789-_"

-- `B64URL[v]`, for the six bits that every caller masks.
unfoldable pub letter : ℕ → ℕ
letter v = or_else (get_elem? b64url v) 0

-- `B64URL.indexOf(c)`.
unfoldable pub digit : ℕ → Option ℕ
digit c = index_of c b64url

-- The 24 bits of a group of three bytes; an absent byte counts as 0.
abbrev pub group : ℕ → ℕ → ℕ → ℕ
group b0 b1 b2 = b0 * 2 ^ 16 + b1 * 2 ^ 8 + b2

unfoldable pub b64u_encode : Bytes → Text
b64u_encode [] = []
b64u_encode (b0 ∷ []) =
    let n = group b0 0 0 in letter (n / 2 ^ 18 % 64) ∷ letter (n / 2 ^ 12 % 64) ∷ []
b64u_encode (b0 ∷ b1 ∷ []) =
    let n = group b0 b1 0 in
    letter (n / 2 ^ 18 % 64) ∷ letter (n / 2 ^ 12 % 64) ∷ letter (n / 2 ^ 6 % 64) ∷ []
b64u_encode (b0 ∷ b1 ∷ b2 ∷ bytes) =
    let n = group b0 b1 b2 in
    letter (n / 2 ^ 18 % 64)
    ∷ letter (n / 2 ^ 12 % 64)
    ∷ letter (n / 2 ^ 6 % 64)
    ∷ letter (n % 64)
    ∷ b64u_encode bytes

-- `buf = (buf << 6) | v`, where `<<` keeps 32 bits.
abbrev pub push_digit : ℕ → ℕ → ℕ
push_digit buf v = buf * 64 % 2 ^ 32 + v

-- `out.push(b)`, before the bytes of the letters still to be read.
unfoldable pub with_byte : ℕ → Option Bytes → Option Bytes
with_byte b none = none
with_byte b (some out) = some (b ∷ out)

-- The loop over the letters. `keeps` is asked about the bits that are left at the end.
unfoldable pub decode_bits : (ℕ → ℕ → Bool) → Text → ℕ → ℕ → Option Bytes
decode_bits keeps [] buf bits = if keeps buf bits then some [] else none
decode_bits keeps (c ∷ s) buf bits = elim (digit c) [
  | none ↦ none
  | some v ↦ elim (leb 8 (bits + 6)) [
    | false ↦ decode_bits keeps s (push_digit buf v) (bits + 6)
    | true ↦
        with_byte (push_digit buf v / 2 ^ (bits + 6 - 8) % 256)
          (decode_bits keeps s (push_digit buf v) (bits + 6 - 8))
  ]
]

-- The bits left over must be zero.
abbrev pub no_rest : ℕ → ℕ → Bool
no_rest buf bits = not (ltb 0 bits && not (eqb (buf % 2 ^ bits) 0))

unfoldable pub b64u_decode : Text → Option Bytes
b64u_decode s = if eqb (length s % 4) 1 then none else decode_bits no_rest s 0 0

unfoldable pub b64u_decode_lenient : Text → Option Bytes
b64u_decode_lenient s = decode_bits (λ buf bits. true) s 0 0
