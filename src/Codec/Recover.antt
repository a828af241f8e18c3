-- ===== src/Codec/Recover.antt =====
-- Tails that are not a whole token, in app/src/codec.ts: `recoverPath`, which finds a token that text was
-- appended to, and `unwrapDest`, which peels routes that were wrapped again.
pub mod Verified
use zeolite.Prelude.{
  ℕ, zero, suc, ◌+◌, ◌-◌, ◌*◌, ◌/◌, ◌%◌, Bool, true, false, ◌&&◌, ◌||◌, not, Option, none, some,
  List, [], ◌∷◌, ◌++◌, ltb, leb, eqb, ◌==◌, text_eq, or_else, is_some, length, take, drop,
  get_elem?, if◌then◌else◌,
}
use Prim.Native.Nat.{bit_xor}
use zeolite.Text.{Text, txt, starts_with}
use zeolite.Url.{Url}
use zeolite.Codec.{Bytes}
use zeolite.Codec.Base64.{digit, b64u_decode_lenient}
use zeolite.Codec.Token.{Utf8, keystream_block, mac_equals, decipher, is_http}
use zeolite.Codec.Route.{Routes, before_query, is_engine_path, decode_path}

-- The text from the first occurrence of `p` on, behind it.
unfoldable pub after : Text → Text → Option Text
after p [] = if starts_with [] p then some (drop (length p) []) else none
after p (c ∷ s) =
    let rest = after p s in if starts_with (c ∷ s) p then some (drop (length p) (c ∷ s)) else rest

-- How many letters of base64url the text begins with.
unfoldable pub letters_first : Text → ℕ
letters_first [] = 0
letters_first (c ∷ s) = let rest = letters_first s in if is_some (digit c) then suc rest else 0

-- The first `n` bytes of the body under the key stream, as text.
unfoldable pub gate_text : ℕ → ℕ → Bytes → Bytes → Text
gate_text zero b ct ks = []
gate_text (suc n) b ct ks =
    bit_xor (or_else (get_elem? ct b) 0) (or_else (get_elem? ks b) 0) ∷ gate_text n (b + 1) ct ks

module _ (utf8 : Utf8) where
  -- One length of the token: its body must have the MACs of the IV and be a destination.
  unfoldable pub try_length : Bytes → Bytes → Bytes → Text → ℕ → Option Text
  try_length key iv d tail l =
      if eqb (l % 4) 1
      then none
      else if mac_equals key (take (3 * l / 4 - 17) d) iv
      then elim (utf8.decode (take (3 * l / 4 - 17) d)) [
        | none ↦ none
        | some dest ↦ if is_http dest then some (dest ++ drop l tail) else none
      ]
      else none

  -- The lengths from `l` on, `count` of them.
  unfoldable pub try_lengths : Bytes → Bytes → Bytes → Text → ℕ → ℕ → Option Text
  try_lengths key iv d tail zero l = none
  try_lengths key iv d tail (suc count) l = elim (try_length key iv d tail l) [
    | none ↦ try_lengths key iv d tail count (l + 1)
    | some out ↦ some out
  ]

  unfoldable pub recover_with : List Bytes → Bytes → Bytes → Text → ℕ → Option Text
  recover_with [] iv ct tail max_l = none
  recover_with (key ∷ keys) iv ct tail max_l =
      let rest = recover_with keys iv ct tail max_l in
      let d = decipher key iv 0 [] ct in
      if is_http (gate_text 8 0 ct (keystream_block key iv 0))
      then elim (try_lengths key iv d tail (max_l + 1 - 23) 23) [
        | none ↦ rest
        | some out ↦ some out
      ]
      else rest

  unfoldable pub recover_bytes : Routes → Text → ℕ → Bytes → Option Text
  recover_bytes r tail max_l [] = none
  recover_bytes r tail max_l (b ∷ bytes) =
      if ltb (length (b ∷ bytes)) 24 || not (eqb b 1)
      then none
      else recover_with r.route_keys (take 16 bytes) (drop 16 bytes) tail max_l

  unfoldable pub recover_tail : Routes → Text → Option Text
  recover_tail r tail =
      if ltb (length tail) 23 || (ltb 2048 (length tail) || ltb (letters_first tail) 23)
      then none
      else elim (b64u_decode_lenient (take (letters_first tail) tail)) [
        | none ↦ none
        | some bytes ↦ recover_bytes r tail (letters_first tail) bytes
      ]

  unfoldable pub recover_path : Routes → Text → Option Text
  recover_path r path = elim (after r.prefix path) [
    | none ↦ none
    | some rest ↦ recover_tail r (before_query rest)
  ]

  -- `unwrapDest`, with a count of the hops that are left.
  unfoldable pub unwrap_hops : (Text → Option Url) → Routes → ℕ → Text → Text
  unwrap_hops parse_url r zero cur = cur
  unwrap_hops parse_url r (suc hops) cur = elim (parse_url cur) [
    | none ↦ cur
    | some u ↦
        if is_http cur && is_engine_path r u.pathname
        then elim (decode_path utf8 r u.pathname) [
          | none ↦ cur
          | some inner ↦ elim (inner == cur) [
            | true ↦ cur
            | false ↦ unwrap_hops parse_url r hops inner
          ]
        ]
        else cur
  ]

  unfoldable pub unwrap_dest : (Text → Option Url) → Routes → Text → Text
  unwrap_dest parse_url r dest = unwrap_hops parse_url r 8 dest
