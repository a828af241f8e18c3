-- ===== src/Codec/Route/Carries.antt =====
-- What a path that decodes carries: base64url of a minted token, or of a plain destination.
use zeolite.Prelude.{
  ◌≡◌, refl, sym, true, false, some, List, [], ◌∷◌, arith, length, drop, Bool-cases, Option-cases,
  inl, inr, In,
}
use zeolite.Text.{Text, starts_with}
use zeolite.Codec.{Bytes}
use zeolite.Codec.Base64.{b64u_encode, b64u_decode}
use zeolite.Codec.Base64.Canonical.{b64u_encode-b64u_decode}
use zeolite.Codec.Token.{Utf8, sealed, keyed_payload, keyed_decode, is_http}
use zeolite.Codec.Token.Opaque.{keyed_payload-sealed}
use zeolite.Codec.Route.{
  Routes, before_query, tail_bytes, is_keyed, open_with, open_tail, decode_path,
}

-- The bytes of a tail that stand for a destination: a token that a held key mints, or bytes of the
-- destination itself that are no token.
pub data Carries (utf8 : Utf8) (r : Routes) (dest : Text) : Bytes → Type 0 where
  token :
      (key d : Bytes)
      → In key r.route_keys
      → utf8.decode d ≡ some dest
      → Carries utf8 r dest (sealed key d)
  plain :
      (bytes : Bytes)
      → is_keyed bytes ≡ false
      → utf8.decode bytes ≡ some dest
      → Carries utf8 r dest bytes

open_with-sealed :
    (utf8 : Utf8) (keys : List Bytes) (bytes : Bytes) (dest : Text)
    → open_with utf8 keys bytes ≡ some dest
    → (key : Bytes) × (In key keys) × (keyed_decode utf8 (some key) bytes ≡ some dest)
unfolding open_with
open_with-sealed utf8 [] bytes dest e = absurd cc
open_with-sealed utf8 (k ∷ keys) bytes dest e =
    elim (Option-cases (keyed_decode utf8 (some k) bytes)) [
      | inr (found, f) ↦ (k, inl refl, ground (arith, e, f))
      | inl n ↦
          let (key, held, opens) = open_with-sealed utf8 keys bytes dest (ground (arith, e, n)) in
          (key, inr held, opens)
    ]

keyed_decode-some :
    (utf8 : Utf8) (key bytes : Bytes) (dest : Text)
    → keyed_decode utf8 (some key) bytes ≡ some dest
    → (keyed_payload utf8 (some key) bytes ≡ some dest) × (is_http dest ≡ true)
unfolding keyed_decode
keyed_decode-some utf8 key bytes dest e = ground (arith, e)

open_tail-plain :
    (utf8 : Utf8) (r : Routes) (bytes : Bytes) (dest : Text)
    → is_keyed bytes ≡ false
    → open_tail utf8 r bytes ≡ some dest
    → (utf8.decode bytes ≡ some dest) × (is_http dest ≡ true)
unfolding open_tail
open_tail-plain utf8 r bytes dest n e = ground (arith, n, e)

open_tail-keyed :
    (utf8 : Utf8) (r : Routes) (bytes : Bytes)
    → is_keyed bytes ≡ true
    → open_tail utf8 r bytes ≡ open_with utf8 r.route_keys bytes
unfolding open_tail
open_tail-keyed utf8 r bytes k = ground (arith, k)

open_tail-Carries :
    (utf8 : Utf8) (r : Routes) (bytes : Bytes) (dest : Text)
    → open_tail utf8 r bytes ≡ some dest
    → (is_http dest ≡ true) × Carries utf8 r dest bytes
open_tail-Carries utf8 r bytes dest e = elim (Bool-cases (is_keyed bytes)) [
  | inr n ↦ let (read, http) = open_tail-plain utf8 r bytes dest n e in (http, plain bytes n read)
  | inl k ↦
      let (key, held, opens) =
        open_with-sealed utf8 r.route_keys bytes dest (rw (open_tail-keyed utf8 r bytes k) at e) in
      let (payload, http) = keyed_decode-some utf8 key bytes dest opens in
      let (d, read, same) = keyed_payload-sealed utf8 key bytes dest payload in
      (http, rw same (token key d held read))
]

tail_bytes-some :
    (r : Routes) (path : Text) (bytes : Bytes)
    → tail_bytes r path ≡ some bytes
    → (starts_with path r.prefix ≡ true)
      × (b64u_decode (before_query (drop (length r.prefix) path)) ≡ some bytes)
unfolding tail_bytes
tail_bytes-some r path bytes e = ground (arith, e)

-- A path that decodes begins with the prefix, its tail up to the query is the base64url of bytes that
-- carry the destination, and the destination is http(s).
pub decode_path-Carries :
    (utf8 : Utf8) (r : Routes) (path dest : Text)
    → decode_path utf8 r path ≡ some dest
    → (is_http dest ≡ true)
      × (starts_with path r.prefix ≡ true)
      × (bytes : Bytes) × (before_query (drop (length r.prefix) path) ≡ b64u_encode bytes)
      × Carries utf8 r dest bytes
unfolding decode_path
decode_path-Carries utf8 r path dest e = elim (Option-cases (tail_bytes r path)) [
  | inl n ↦ absurd (ground (arith, e, n))
  | inr (bytes, t) ↦
      let (http, carries) = open_tail-Carries utf8 r bytes dest (ground (arith, e, t)) in
      let (begins, read) = tail_bytes-some r path bytes t in
      (http, begins, bytes, sym (b64u_encode-b64u_decode _ bytes read).0, carries)
]
