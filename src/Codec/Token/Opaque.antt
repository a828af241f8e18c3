-- ===== src/Codec/Token/Opaque.antt =====
-- A token opens under its key to the payload that it was minted for, and nothing else opens.
use Prim.Native.Nat.{bit_or, bit_xor}
use zeolite.Prelude.{
  ℕ, zero, suc, ◌≤◌, ◌≡◌, refl, sym, ap, ◌∙◌, true, some, [], ◌∷◌, ◌++◌, arith, eqb_iff, length,
  length-append, take, drop,
}
use zeolite.Text.{Text}
use zeolite.Codec.{Bytes}
use zeolite.Codec.Siphash.{le_bytes, siphash24}
use zeolite.Codec.Token.{
  Utf8, dest_mac, iv_of, fold_diff, mac_equals, cipher, sealed, keyed_token, verified,
  keyed_payload,
}
use zeolite.Codec.Token.Xor.{bit_xor_self, bit_xor_zero, bit_or_zero}
use zeolite.Codec.Token.Stream.{cipher_twice, decipher-cipher}

length-le_bytes : (count v : ℕ) → length (le_bytes count v) ≡ count
unfolding le_bytes
length-le_bytes zero v = refl
length-le_bytes (suc count) v = ap suc (length-le_bytes count _)

pub length-iv_of : (key d : Bytes) → length (iv_of key d) ≡ 16
unfolding iv_of dest_mac
length-iv_of key d = omega (
  arith,
  length-append (dest_mac key d 1) (dest_mac key d 2),
  length-le_bytes 8 (siphash24 key (d ++ 1 ∷ [])),
  length-le_bytes 8 (siphash24 key (d ++ 2 ∷ [])),
)

pub take-append : (n : ℕ) (xs ys : Bytes) → length xs ≡ n → take n (xs ++ ys) ≡ xs
take-append zero [] ys e = refl
take-append zero (x ∷ xs) ys e = absurd (omega arith)
take-append (suc n) [] ys e = absurd (omega arith)
take-append (suc n) (x ∷ xs) ys e = ap (λ zs. x ∷ zs) (take-append n xs ys (omega arith))

pub drop-append : (n : ℕ) (xs ys : Bytes) → length xs ≡ n → drop n (xs ++ ys) ≡ ys
drop-append zero [] ys e = refl
drop-append zero (x ∷ xs) ys e = absurd (omega arith)
drop-append (suc n) [] ys e = absurd (omega arith)
drop-append (suc n) (x ∷ xs) ys e = drop-append n xs ys (omega arith)

pub take-drop : (n : ℕ) (xs : Bytes) → take n xs ++ drop n xs ≡ xs
take-drop zero xs = refl
take-drop (suc n) [] = refl
take-drop (suc n) (x ∷ xs) = ap (λ zs. x ∷ zs) (take-drop n xs)

pub length-take : (n : ℕ) (xs : Bytes) → n ≤ length xs → length (take n xs) ≡ n
length-take zero xs h = refl
length-take (suc n) [] h = absurd (omega arith)
length-take (suc n) (x ∷ xs) h = ap suc (length-take n xs (omega arith))

fold_diff_self : (xs : Bytes) → fold_diff 0 xs xs ≡ 0
unfolding fold_diff
fold_diff_self [] = refl
fold_diff_self (x ∷ xs) = rw (bit_xor_self x) (fold_diff_self xs)

fold_diff_zero :
    (diff : ℕ) (xs ys : Bytes)
    → length xs ≡ length ys
    → fold_diff diff xs ys ≡ 0
    → (diff ≡ 0) × (xs ≡ ys)
unfolding fold_diff
fold_diff_zero diff [] [] l e = (e, refl)
fold_diff_zero diff [] (y ∷ ys) l e = absurd (omega arith)
fold_diff_zero diff (x ∷ xs) [] l e = absurd (omega arith)
fold_diff_zero diff (x ∷ xs) (y ∷ ys) l e =
    let (d, same) = fold_diff_zero (bit_or diff (bit_xor x y)) xs ys (omega (arith, l)) e in
    let (d0, x0) = bit_or_zero diff (bit_xor x y) d in (d0, rw (bit_xor_zero x y x0, same) refl)

-- The IV passes exactly if it is the one of the payload.
mac_equals_self : (key d : Bytes) → mac_equals key d (iv_of key d) ≡ true
unfolding mac_equals
mac_equals_self key d = (eqb_iff _ 0).1 (fold_diff_self (iv_of key d))

pub mac_equals-eq :
    (key d iv : Bytes) → length iv ≡ 16 → mac_equals key d iv ≡ true → iv ≡ iv_of key d
unfolding mac_equals
mac_equals-eq key d iv l e =
    sym (fold_diff_zero 0 (iv_of key d) iv (length-iv_of key d ∙ sym l) ((eqb_iff _ 0).0 e)).1

pub length-sealed : (key d : Bytes) → 17 ≤ length (sealed key d)
length-sealed key d =
    omega (arith, length-append (iv_of key d) (cipher key (iv_of key d) 0 d), length-iv_of key d)

verified-iv_of :
    (utf8 : Utf8) (key d : Bytes) (payload : Text)
    → utf8.decode d ≡ some payload
    → verified utf8 key (iv_of key d) d ≡ some payload
unfolding verified
verified-iv_of utf8 key d payload h = ground (arith, h, mac_equals_self key d)

verified-some :
    (utf8 : Utf8) (key iv d : Bytes) (payload : Text)
    → verified utf8 key iv d ≡ some payload
    → (utf8.decode d ≡ some payload) × (mac_equals key d iv ≡ true)
unfolding verified
verified-some utf8 key iv d payload e = ground (arith, e)

-- A body that holds the payload of its IV is the rest of the token of that payload.
resealed :
    (key iv ct : Bytes)
    → iv ≡ iv_of key (cipher key iv 0 ct)
    → 1 ∷ (iv ++ ct) ≡ sealed key (cipher key iv 0 ct)
resealed key iv ct e = ap (λ bytes. 1 ∷ bytes) (rw (← e) (rw (cipher_twice key iv 0 ct) refl))

header_passes :
    (utf8 : Utf8) (key bytes : Bytes)
    → 16 ≤ length bytes
    → keyed_payload utf8 (some key) (1 ∷ bytes)
      ≡ verified utf8 key (take 16 bytes) (cipher key (take 16 bytes) 0 (drop 16 bytes))
unfolding keyed_payload
header_passes utf8 key bytes h =
    rw (← decipher-cipher key (take 16 bytes) (drop 16 bytes)) (ground arith)

header-some :
    (utf8 : Utf8) (key bytes : Bytes) (b : ℕ) (payload : Text)
    → keyed_payload utf8 (some key) (b ∷ bytes) ≡ some payload
    → (b ≡ 1)
      × (16 ≤ length bytes)
      × (verified utf8 key (take 16 bytes) (cipher key (take 16 bytes) 0 (drop 16 bytes))
          ≡ some payload)
unfolding keyed_payload
header-some utf8 key bytes b payload e =
    rw (← decipher-cipher key (take 16 bytes) (drop 16 bytes)) (ground (arith, e))

-- A minted token opens under its key to the destination that it was minted for.
pub keyed_payload-keyed_token :
    (utf8 : Utf8) (key : Bytes) (dest : Text)
    → utf8.decode (utf8.encode dest) ≡ some dest
    → keyed_payload utf8 (some key) (keyed_token utf8 key dest) ≡ some dest
unfolding keyed_token
keyed_payload-keyed_token utf8 key dest h =
    let d = utf8.encode dest in
    let iv = iv_of key d in
    let ct = cipher key iv 0 d in
    let l = length-iv_of key d in
    header_passes utf8 key (iv ++ ct) (omega (arith, length-append iv ct, l))
    ∙ rw (take-append 16 iv ct l, drop-append 16 iv ct l)
        (rw (cipher_twice key iv 0 d) (verified-iv_of utf8 key d dest h))

-- What opens under a key is the token that the key mints for the payload's bytes.
pub keyed_payload-sealed :
    (utf8 : Utf8) (key bytes : Bytes) (payload : Text)
    → keyed_payload utf8 (some key) bytes ≡ some payload
    → (d : Bytes) × (utf8.decode d ≡ some payload) × (bytes ≡ sealed key d)
keyed_payload-sealed utf8 key [] payload e = unfold keyed_payload in absurd cc
keyed_payload-sealed utf8 key (b ∷ bytes) payload e =
    let (hb, hl, ho) = header-some utf8 key bytes b payload e in
    let iv = take 16 bytes in
    let ct = drop 16 bytes in
    let (read, mac) = verified-some utf8 key iv (cipher key iv 0 ct) payload ho in
    let same = mac_equals-eq key (cipher key iv 0 ct) iv (length-take 16 bytes hl) mac in
    (
      cipher key iv 0 ct,
      read,
      rw hb (ap (λ r. 1 ∷ r) (sym (take-drop 16 bytes)) ∙ resealed key iv ct same),
    )
