-- ===== src/Codec/Siphash.antt =====
-- SipHash-2-4 as app/src/codec.ts computes it on 64-bit words.
use Prim.Native.Nat.{bit_or, bit_xor}
use zeolite.Prelude.{ℕ, zero, suc, ◌+◌, ◌-◌, ◌*◌, ◌/◌, ◌%◌, ◌^◌, [], ◌∷◌, length, take, drop}
use zeolite.Codec.{Bytes}

abbrev pub m64 : ℕ
m64 = 2 ^ 64

unfoldable pub rotl64 : ℕ → ℕ → ℕ
rotl64 v n = bit_or (v * 2 ^ n) (v / 2 ^ (64 - n)) % m64

-- The little-endian number that the bytes stand for.
unfoldable pub le64 : Bytes → ℕ
le64 [] = 0
le64 (b ∷ bytes) = bit_or (le64 bytes * 2 ^ 8) b

-- `count` bytes of a number, the lowest first.
unfoldable pub le_bytes : ℕ → ℕ → Bytes
le_bytes zero v = []
le_bytes (suc count) v = v % 2 ^ 8 ∷ le_bytes count (v / 2 ^ 8)

abbrev pub u64le : ℕ → Bytes
u64le = le_bytes 8

abbrev pub u32le : ℕ → Bytes
u32le = le_bytes 4

pub record State : Type 0 where
  pub v0 : ℕ
  pub v1 : ℕ
  pub v2 : ℕ
  pub v3 : ℕ

unfoldable pub sipround : State → State
sipround v =
    let a0 = (v.v0 + v.v1) % m64 in
    let a1 = bit_xor (rotl64 v.v1 13) a0 in
    let b0 = rotl64 a0 32 in
    let a2 = (v.v2 + v.v3) % m64 in
    let a3 = bit_xor (rotl64 v.v3 16) a2 in
    let c0 = (b0 + a3) % m64 in
    let b3 = bit_xor (rotl64 a3 21) c0 in
    let b2 = (a2 + a1) % m64 in
    let b1 = bit_xor (rotl64 a1 17) b2 in record { v0 = c0; v1 = b1; v2 = rotl64 b2 32; v3 = b3 }

-- Two rounds on one word of the message.
unfoldable pub absorb : State → ℕ → State
absorb v m =
    let w = sipround (sipround (record v { v3 = bit_xor v.v3 m })) in
    record w { v0 = bit_xor w.v0 m }

-- The whole words of the message and then its last word, which has the length in its top byte.
unfoldable pub absorb_all : ℕ → Bytes → State → State
absorb_all len (a ∷ b ∷ c ∷ d ∷ e ∷ f ∷ g ∷ h ∷ msg) v =
    absorb_all len msg (absorb v (le64 (a ∷ b ∷ c ∷ d ∷ e ∷ f ∷ g ∷ h ∷ [])))
absorb_all len msg v = absorb v (bit_or (len % 2 ^ 8 * 2 ^ 56) (le64 msg))

unfoldable pub siphash24 : Bytes → Bytes → ℕ
siphash24 key msg =
    let k0 = le64 (take 8 key) in
    let k1 = le64 (take 8 (drop 8 key)) in
    let start : State = record {
      v0 = bit_xor k0 0x736f6d6570736575;
      v1 = bit_xor k1 0x646f72616e646f6d;
      v2 = bit_xor k0 0x6c7967656e657261;
      v3 = bit_xor k1 0x7465646279746573;
    } in
    let w = absorb_all (length msg) msg start in
    let v = sipround (sipround (sipround (sipround (record w { v2 = bit_xor w.v2 0xff })))) in
    bit_xor (bit_xor (bit_xor v.v0 v.v1) v.v2) v.v3 % m64
