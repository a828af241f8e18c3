-- ===== src/Codec/Base64/Turns.antt =====
-- The letters of base64url as digits, and the turns of the decoding loop on a group of letters.
use zeolite.Prelude.{
  ℕ, zero, suc, ◌+◌, ◌*◌, ◌/◌, ◌%◌, ◌^◌, ◌<◌, ◌≡◌, refl, ap, ◌∙◌, Bool, true, false, none, some, [],
  ◌∷◌, arith, eqb, length, get_elem?, all_below, all_below-at,
}
use zeolite.Text.{Text, index_of}
use zeolite.Codec.Base64.{b64url, letter, digit, push_digit, with_byte, decode_bits}

reads_back : ℕ → Bool
reads_back v = elim (digit (letter v)) [ none ↦ false | some w ↦ eqb w v ]

table : all_below reads_back 64 ≡ true
unfolding all_below reads_back digit letter index_of
table = refl

pub digit-letter : (v : ℕ) → v < 64 → digit (letter v) ≡ some v
unfolding reads_back
digit-letter v h = ground (arith, all_below-at reads_back 64 v table h)

index_of-at : (c i : ℕ) (s : Text) → index_of c s ≡ some i → get_elem? s i ≡ some c
unfolding index_of
index_of-at c i [] e = cc
index_of-at c zero (d ∷ s) e = ground (arith, index_of-at c zero s)
index_of-at c (suc i) (d ∷ s) e = ground (arith, index_of-at c i s)

index_of-lt : (c i : ℕ) (s : Text) → index_of c s ≡ some i → i < length s
unfolding index_of
index_of-lt c i [] e = cc
index_of-lt c zero (d ∷ s) e = omega arith
index_of-lt c (suc i) (d ∷ s) e = ground (arith, index_of-lt c i s)

pub letter-digit : (c v : ℕ) → digit c ≡ some v → (letter v ≡ c) × (v < 64)
unfolding digit letter
letter-digit c v e = (rw (index_of-at c v b64url e) refl, index_of-lt c v b64url e)

-- The bytes of a group of letters with the values va, vb, vc and vd.
unfoldable pub first_byte : ℕ → ℕ → ℕ
first_byte va vb = va * 4 + vb / 16

unfoldable pub second_byte : ℕ → ℕ → ℕ
second_byte vb vc = vb % 16 * 16 + vc / 4

unfoldable pub third_byte : ℕ → ℕ → ℕ
third_byte vc vd = vc % 4 * 64 + vd

first_shift :
    (buf va vb : ℕ)
    → va < 64
    → vb < 64
    → push_digit (push_digit buf va) vb / 2 ^ 4 % 256 ≡ first_byte va vb
unfolding first_byte
first_shift buf va vb ha hb = omega arith

second_shift :
    (buf vb vc : ℕ)
    → vb < 64
    → vc < 64
    → push_digit (push_digit buf vb) vc / 2 ^ 2 % 256 ≡ second_byte vb vc
unfolding second_byte
second_shift buf vb vc hb hc = omega arith

third_shift :
    (buf vc vd : ℕ)
    → vc < 64
    → vd < 64
    → push_digit (push_digit buf vc) vd / 2 ^ 0 % 256 ≡ third_byte vc vd
unfolding third_byte
third_shift buf vc vd hc hd = omega arith

-- One turn of the loop: six more bits, without and with a byte put out.
module _ (keeps : ℕ → ℕ → Bool) (c v : ℕ) (s : Text) (buf : ℕ) (e : digit c ≡ some v) where
  turn_more : decode_bits keeps (c ∷ s) buf 0 ≡ decode_bits keeps s (push_digit buf v) 6
  unfolding decode_bits
  turn_more = ground (arith, e)

  turn_byte :
      (rest b : ℕ)
      → push_digit buf v / 2 ^ rest % 256 ≡ b
      → decode_bits keeps (c ∷ s) buf (rest + 2)
        ≡ with_byte b (decode_bits keeps s (push_digit buf v) rest)
  unfolding decode_bits with_byte
  turn_byte rest b h = ground (arith, e)

-- Two, three and four letters of a group.
module _ (keeps : ℕ → ℕ → Bool) (a b va vb : ℕ) (ea : digit a ≡ some va)
    (eb : digit b ≡ some vb) where
  pub two_letters :
      (s : Text) (buf : ℕ)
      → decode_bits keeps (a ∷ b ∷ s) buf 0
        ≡ with_byte (first_byte va vb) (decode_bits keeps s (push_digit (push_digit buf va) vb) 4)
  two_letters s buf =
      turn_more keeps a va (b ∷ s) buf ea
      ∙ turn_byte keeps b vb s (push_digit buf va) eb 4 (first_byte va vb)
          (first_shift buf va vb (letter-digit a va ea).1 (letter-digit b vb eb).1)

  module _ (c vc : ℕ) (ec : digit c ≡ some vc) where
    pub three_letters :
        (s : Text) (buf : ℕ)
        → decode_bits keeps (a ∷ b ∷ c ∷ s) buf 0
          ≡ with_byte (first_byte va vb) (
              with_byte
                (second_byte vb vc)
                (decode_bits keeps s (push_digit (push_digit (push_digit buf va) vb) vc) 2))
    three_letters s buf =
        two_letters (c ∷ s) buf
        ∙ ap (with_byte (first_byte va vb)) (
            turn_byte keeps c vc s (push_digit (push_digit buf va) vb) ec 2 (second_byte vb vc) (
              second_shift (push_digit buf va) vb vc (letter-digit b vb eb).1
                (letter-digit c vc ec).1))

    pub four_letters :
        (d vd : ℕ) (ed : digit d ≡ some vd) (s : Text) (buf : ℕ)
        → decode_bits keeps (a ∷ b ∷ c ∷ d ∷ s) buf 0
          ≡ with_byte (first_byte va vb) (
              with_byte (second_byte vb vc) (
                with_byte (third_byte vc vd) (
                  decode_bits keeps s
                    (push_digit (push_digit (push_digit (push_digit buf va) vb) vc) vd)
                    0)))
    four_letters d vd ed s buf =
        three_letters (d ∷ s) buf
        ∙ ap (λ r. with_byte (first_byte va vb) (with_byte (second_byte vb vc) r))
            (turn_byte keeps d vd s (push_digit (push_digit (push_digit buf va) vb) vc) ed 0
              (third_byte vc vd)
              (third_shift (push_digit (push_digit buf va) vb) vc vd (letter-digit c vc ec).1
                (letter-digit d vd ed).1))

pub group_letter : (n w : ℕ) → digit (letter (n / w % 64)) ≡ some (n / w % 64)
group_letter n w = digit-letter (n / w % 64) (omega arith)
