-- ===== src/Codec/Base64/Canonical.antt =====
-- base64url has one text for each byte string.
use zeolite.Prelude.{
  ℕ, ◌+◌, ◌-◌, ◌/◌, ◌%◌, ◌^◌, ◌<◌, ◌≡◌, ◌≢◌, ◌↔◌, refl, sym, Bool, Option, none, some, [], ◌∷◌,
  arith, leb, eqb, length, All, Option-cases, Bool-cases, eqb_iff, inl, inr,
}
use zeolite.Text.{Text}
use zeolite.Codec.Base64.RoundTrip.{b64u_decode-b64u_encode}
use zeolite.Codec.{Bytes, IsByte}
use zeolite.Codec.Base64.{
  digit, group, b64u_encode, push_digit, with_byte, decode_bits, no_rest, b64u_decode,
}
use zeolite.Codec.Base64.Turns.{
  first_byte, second_byte, third_byte, two_letters, three_letters, four_letters, letter-digit,
}

-- A text that is read has a digit for each of its letters.
abbrev HasDigit : ℕ → Type 0
HasDigit c = (v : ℕ) × (digit c ≡ some v)

-- The text behind the first letter is read too, from the bits that are there by then.
abbrev Later : (ℕ → ℕ → Bool) → Text → Type 0
Later keeps s = (buf : ℕ) × (bits : ℕ) × (out : Bytes) × (decode_bits keeps s buf bits ≡ some out)

with_byte-some :
    (b : ℕ) (o : Option Bytes) (out : Bytes)
    → with_byte b o ≡ some out
    → (rest : Bytes) × ((o ≡ some rest) × (out ≡ b ∷ rest))
unfolding with_byte
with_byte-some b none out e = absurd cc
with_byte-some b (some rest) out e = (rest, (refl, ground arith))

decode_bits-Later :
    (keeps : ℕ → ℕ → Bool) (c : ℕ) (s : Text) (buf bits : ℕ) (out : Bytes)
    → decode_bits keeps (c ∷ s) buf bits ≡ some out
    → HasDigit c × Later keeps s
unfolding decode_bits
decode_bits-Later keeps c s buf bits out e = elim (Option-cases (digit c)) [
  | inl n ↦ absurd (cc (n, e))
  | inr (v, ev) ↦ elim (Bool-cases (leb 8 (bits + 6))) [
    | inl more ↦
        let (rest, (er, eo)) =
          with_byte-some (push_digit buf v / 2 ^ (bits + 6 - 8) % 256)
            (decode_bits keeps s (push_digit buf v) (bits + 6 - 8)) out
            (ground (arith, ev, more, e)) in
        ((v, ev), (push_digit buf v, bits + 6 - 8, rest, er))
    | inr less ↦ ((v, ev), (push_digit buf v, bits + 6, out, ground (arith, ev, less, e)))
  ]
]

decode_bits-HasDigit :
    (keeps : ℕ → ℕ → Bool) (s : Text) (buf bits : ℕ) (out : Bytes)
    → decode_bits keeps s buf bits ≡ some out
    → All HasDigit s
decode_bits-HasDigit keeps [] buf bits out e = tt
decode_bits-HasDigit keeps (c ∷ s) buf bits out e =
    let (has, (b, n, o, later)) = decode_bits-Later keeps c s buf bits out e in
    (has, decode_bits-HasDigit keeps s b n o later)

group_letters :
    (va vb vc vd : ℕ)
    → va < 64
    → vb < 64
    → vc < 64
    → vd < 64
    → let n = group (first_byte va vb) (second_byte vb vc) (third_byte vc vd) in
      (n / 2 ^ 18 % 64 ≡ va) × (n / 2 ^ 12 % 64 ≡ vb) × (n / 2 ^ 6 % 64 ≡ vc) × (n % 64 ≡ vd)
unfolding first_byte second_byte third_byte
group_letters va vb vc vd ha hb hc hd = (omega arith, omega arith, omega arith, omega arith)

-- The bytes are bytes, and they write the text.
record Writes (bytes : Bytes) (s : Text) : Type 0 where
  text : b64u_encode bytes ≡ s
  bytes_ok : All IsByte bytes

first_byte-IsByte : (va vb : ℕ) → va < 64 → vb < 64 → IsByte (first_byte va vb)
unfolding first_byte
first_byte-IsByte va vb ha hb = omega arith

second_byte-IsByte : (vb vc : ℕ) → vb < 64 → vc < 64 → IsByte (second_byte vb vc)
unfolding second_byte
second_byte-IsByte vb vc hb hc = omega arith

third_byte-IsByte : (vc vd : ℕ) → vc < 64 → vd < 64 → IsByte (third_byte vc vd)
unfolding third_byte
third_byte-IsByte vc vd hc hd = omega arith

-- A group whose last letters have no bit left over, and what ends the loop.
no_second : (vb : ℕ) → vb % 2 ^ 4 ≡ 0 → second_byte vb 0 ≡ 0
unfolding second_byte
no_second vb h = omega arith

no_third : (vc : ℕ) → vc % 2 ^ 2 ≡ 0 → third_byte vc 0 ≡ 0
unfolding third_byte
no_third vc h = omega arith

decode_bits-nil :
    (buf bits : ℕ) (out : Bytes)
    → decode_bits no_rest [] buf bits ≡ some out
    → (out ≡ []) × ((0 < bits) → buf % 2 ^ bits ≡ 0)
unfolding decode_bits
decode_bits-nil buf bits out e = (
  ground (arith, e),
  λ pos. elim (Bool-cases (eqb (buf % 2 ^ bits) 0)) [
    | inl z ↦ (eqb_iff _ 0).0 z
    | inr z ↦ absurd (ground (arith, e, z, pos))
  ],
)

module _ (a b va vb : ℕ) (ea : digit a ≡ some va) (eb : digit b ≡ some vb) where
  two-Writes : vb % 2 ^ 4 ≡ 0 → Writes (first_byte va vb ∷ []) (a ∷ b ∷ [])
  unfolding b64u_encode
  two-Writes pad =
      let (la, ha) = letter-digit a va ea in
      let (lb, hb) = letter-digit b vb eb in
      let (ga, gb, _, _) =
        rw (no_second vb pad, no_third 0 refl) at
          (group_letters va vb 0 0 ha hb (omega arith) (omega arith)) in
      record { text = rw (ga, gb, la, lb) refl; bytes_ok = (first_byte-IsByte va vb ha hb, tt) }

  module _ (c vc : ℕ) (ec : digit c ≡ some vc) where
    three-Writes :
        vc % 2 ^ 2 ≡ 0 → Writes (first_byte va vb ∷ second_byte vb vc ∷ []) (a ∷ b ∷ c ∷ [])
    unfolding b64u_encode
    three-Writes pad =
        let (la, ha) = letter-digit a va ea in
        let (lb, hb) = letter-digit b vb eb in
        let (lc, hc) = letter-digit c vc ec in
        let (ga, gb, gc, _) =
          rw (no_third vc pad) at (group_letters va vb vc 0 ha hb hc (omega arith)) in
        record {
          text = rw (ga, gb, gc, la, lb, lc) refl;
          bytes_ok = (first_byte-IsByte va vb ha hb, (second_byte-IsByte vb vc hb hc, tt));
        }

    four-Writes :
        (d vd : ℕ) (ed : digit d ≡ some vd) (s : Text) (bytes : Bytes)
        → Writes bytes s
        → Writes
            (first_byte va vb ∷ second_byte vb vc ∷ third_byte vc vd ∷ bytes)
            (a ∷ b ∷ c ∷ d ∷ s)
    unfolding b64u_encode
    four-Writes d vd ed s bytes w =
        let (la, ha) = letter-digit a va ea in
        let (lb, hb) = letter-digit b vb eb in
        let (lc, hc) = letter-digit c vc ec in
        let (ld, hd) = letter-digit d vd ed in
        let (ga, gb, gc, gd) = group_letters va vb vc vd ha hb hc hd in
        record {
          text = rw (ga, gb, gc, gd, la, lb, lc, ld, w.text) refl;
          bytes_ok = (
            first_byte-IsByte va vb ha hb,
            (second_byte-IsByte vb vc hb hc, (third_byte-IsByte vc vd hc hd, w.bytes_ok)),
          );
        }

last_four : (buf va vb : ℕ) → push_digit (push_digit buf va) vb % 2 ^ 4 ≡ vb % 2 ^ 4
last_four buf va vb = omega arith

last_two : (buf vb vc : ℕ) → push_digit (push_digit buf vb) vc % 2 ^ 2 ≡ vc % 2 ^ 2
last_two buf vb vc = omega arith

decode_bits-Writes :
    (s : Text) (buf : ℕ) (bytes : Bytes)
    → All HasDigit s
    → length s % 4 ≢ 1
    → decode_bits no_rest s buf 0 ≡ some bytes
    → Writes bytes s
decode_bits-Writes [] buf bytes h l e =
    rw (decode_bits-nil buf 0 bytes e).0
      (record { text = unfold b64u_encode in refl; bytes_ok = tt })
decode_bits-Writes (a ∷ []) buf bytes h l e = absurd (l refl)
decode_bits-Writes (a ∷ b ∷ []) buf bytes ((va, ea), ((vb, eb), h)) l e =
    let (r, (er, eo)) =
      with_byte-some _ _ bytes (rw (two_letters no_rest a b va vb ea eb [] buf) at e) in
    let (en, pad) = decode_bits-nil _ 4 r er in
    rw (eo, en) (two-Writes a b va vb ea eb (omega (arith, last_four buf va vb, pad (omega arith))))
decode_bits-Writes (a ∷ b ∷ c ∷ []) buf bytes ((va, ea), ((vb, eb), ((vc, ec), h))) l e =
    let (r, (er, eo)) =
      with_byte-some _ _ bytes (rw (three_letters no_rest a b va vb ea eb c vc ec [] buf) at e) in
    let (t, (et, eu)) = with_byte-some _ _ r er in
    let (en, pad) = decode_bits-nil _ 2 t et in
    rw (eo, eu, en)
      (three-Writes a b va vb ea eb c vc ec
        (omega (arith, last_two (push_digit buf va) vb vc, pad (omega arith))))
decode_bits-Writes (a ∷ b ∷ c ∷ d ∷ s) buf bytes ((va, ea), ((vb, eb), ((vc, ec), ((vd, ed), h)))) l
      e =
    let (r, (er, eo)) =
      with_byte-some _ _ bytes
        (rw (four_letters no_rest a b va vb ea eb c vc ec d vd ed s buf) at e) in
    let (t, (et, eu)) = with_byte-some _ _ r er in
    let (u, (ev, ew)) = with_byte-some _ _ t et in
    rw (eo, eu, ew)
      (four-Writes a b va vb ea eb c vc ec d vd ed s u
        (decode_bits-Writes s _ u h (λ k. l (omega (arith, k))) ev))

-- A text that base64url reads is the one that its bytes are written as, and they are bytes.
pub b64u_encode-b64u_decode :
    (s : Text) (bytes : Bytes)
    → b64u_decode s ≡ some bytes
    → (b64u_encode bytes ≡ s) × All IsByte bytes
unfolding b64u_decode
b64u_encode-b64u_decode s bytes e = elim (Bool-cases (eqb (length s % 4) 1)) [
  | inl one ↦ absurd (ground (arith, e, one))
  | inr other ↦
      let read = rw other at e in
      let w =
        decode_bits-Writes s 0 bytes (decode_bits-HasDigit no_rest s 0 0 bytes read)
          (λ one. ground (arith, one, other)) read in
      (w.text, w.bytes_ok)
]

-- For each byte string there is exactly one text that base64url reads as it: the one it is written as.
pub b64u_decode_iff :
    (s : Text) (bytes : Bytes)
    → All IsByte bytes
    → (b64u_decode s ≡ some bytes) ↔ (s ≡ b64u_encode bytes)
b64u_decode_iff s bytes v =
    ((λ e. sym (b64u_encode-b64u_decode s bytes e).0), λ e. rw e (b64u_decode-b64u_encode bytes v))
