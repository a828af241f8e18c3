-- ===== src/Codec/Token.antt =====
-- The keyed tokens of app/src/codec.ts: 0x01, an IV that is two MACs of the payload, and the payload
-- under a key stream. UTF-8 is the platform's.
pub mod Xor
pub mod Stream
pub mod Bounds
pub mod Opaque
use Prim.Native.Nat.{bit_or, bit_xor}
use zeolite.Prelude.{
  ℕ, suc, ◌+◌, ◌/◌, ◌%◌, ◌<◌, ◌≡◌, Bool, true, false, ◌||◌, not, Option, none, some, List, [], ◌∷◌,
  ◌++◌, ltb, eqb, or_else, length, take, drop, get_elem?, if◌then◌else◌, nat_eq, All,
}
use zeolite.Prelude.Maps.{get, set}
use zeolite.Text.{Text, txt, starts_with}
use zeolite.Codec.{Bytes, IsByte}
use zeolite.Codec.Siphash.{siphash24, u64le, u32le}

-- `TextEncoder` and a fatal `TextDecoder`, with `none` for what it throws on.
pub record Utf8 : Type 0 where
  pub encode : Text → Bytes
  pub decode : Bytes → Option Text
  pub encode-IsByte : (s : Text) → All IsByte (encode s)
  pub encode_ascii : (c : ℕ) (s : Text) → c < 128 → encode (c ∷ s) ≡ c ∷ encode s

unfoldable pub keystream_block : Bytes → Bytes → ℕ → Bytes
keystream_block key iv j = u64le (siphash24 key (iv ++ u32le j ++ 3 ∷ []))

unfoldable pub dest_mac : Bytes → Bytes → ℕ → Bytes
dest_mac key dest dom = u64le (siphash24 key (dest ++ dom ∷ []))

-- The IV of a payload.
unfoldable pub iv_of : Bytes → Bytes → Bytes
iv_of key dest = dest_mac key dest 1 ++ dest_mac key dest 2

-- `diff |= mac[i] ^ iv[i]` over the bytes of both.
unfoldable pub fold_diff : ℕ → Bytes → Bytes → ℕ
fold_diff diff (a ∷ mac) (b ∷ iv) = fold_diff (bit_or diff (bit_xor a b)) mac iv
fold_diff diff _ _ = diff

unfoldable pub mac_equals : Bytes → Bytes → Bytes → Bool
mac_equals key d iv = eqb (fold_diff 0 (iv_of key d) iv) 0

-- Byte `i` of the key stream, from its block.
unfoldable pub stream_byte : Bytes → ℕ → ℕ
stream_byte block i = or_else (get_elem? block (i % 8)) 0

-- The payload from its byte `i` on, under the key stream.
unfoldable pub cipher : Bytes → Bytes → ℕ → Bytes → Bytes
cipher key iv i [] = []
cipher key iv i (b ∷ bytes) =
    bit_xor b (stream_byte (keystream_block key iv (i / 8)) i) ∷ cipher key iv (i + 1) bytes

-- The bytes of the token of a payload.
abbrev pub sealed : Bytes → Bytes → Bytes
sealed key d = let iv = iv_of key d in 1 ∷ (iv ++ cipher key iv 0 d)

unfoldable pub keyed_token : Utf8 → Bytes → Text → Bytes
keyed_token utf8 key dest = sealed key (utf8.encode dest)

-- The same of the decoder, which keeps the blocks that it has computed.
unfoldable pub decipher : Bytes → Bytes → ℕ → List (ℕ × Bytes) → Bytes → Bytes
decipher key iv i blocks [] = []
decipher key iv i blocks (c ∷ ct) =
    let ks = or_else (get (i / 8) blocks) (keystream_block key iv (i / 8)) in
    bit_xor c (stream_byte ks i) ∷ decipher key iv (i + 1) (set (i / 8) ks blocks) ct

-- What the token holds counts if its MACs are the IV.
unfoldable pub verified : Utf8 → Bytes → Bytes → Bytes → Option Text
verified utf8 key iv d = elim (utf8.decode d) [
  | none ↦ none
  | some payload ↦ if mac_equals key d iv then some payload else none
]

unfoldable pub keyed_payload : Utf8 → Option Bytes → Bytes → Option Text
keyed_payload utf8 none bytes = none
keyed_payload utf8 (some key) [] = none
keyed_payload utf8 (some key) (b ∷ bytes) =
    if ltb (length (b ∷ bytes)) 17 || not (eqb b 1)
    then none
    else let iv = take 16 bytes in verified utf8 key iv (decipher key iv 0 [] (drop 16 bytes))

-- `/^https?:\/\//.test(s)`.
unfoldable pub is_http : Text → Bool
is_http s = starts_with s (txt "http://") || starts_with s (txt "https://")

unfoldable pub keyed_decode : Utf8 → Option Bytes → Bytes → Option Text
keyed_decode utf8 key bytes = elim (keyed_payload utf8 key bytes) [
  | none ↦ none
  | some payload ↦ if is_http payload then some payload else none
]
