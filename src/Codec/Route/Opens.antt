-- ===== src/Codec/Route/Opens.antt =====
-- The paths that the engine writes are the ones that it reads: round trips, and what a read path carries.
use zeolite.Prelude.{
  ℕ, ◌%◌, ◌≡◌, refl, ap, ◌∙◌, Bool, true, false, not, Option, none, some, List, [], ◌∷◌, ◌++◌,
  arith, eqb_iff, length, drop, All, all_below, all_below-at,
}
use zeolite.Text.{Text, starts_with}
use zeolite.Codec.{Bytes, IsByte}
use zeolite.Codec.Base64.{letter, b64u_encode}
use zeolite.Codec.Base64.RoundTrip.{b64u_decode-b64u_encode}
use zeolite.Codec.Token.{Utf8, sealed, keyed_token, keyed_decode, is_http}
use zeolite.Codec.Token.Bounds.{sealed-IsByte}
use zeolite.Codec.Token.Opaque.{length-sealed, keyed_payload-keyed_token}
use zeolite.Codec.Route.{
  Routes, initial, set_scheme, set_route_key, set_route_keys, ends_tail, before_query, tail_bytes,
  is_keyed, encode_dest, encode_dest_legacy, open_with, open_tail, decode_path,
}
use zeolite.Codec.Route.Prefix.{Change, scheme, route_key, route_keys, change, run}

ends_no_tail : ℕ → Bool
ends_no_tail v = not (ends_tail (letter v))

table : all_below ends_no_tail 64 ≡ true
unfolding all_below ends_no_tail letter
table = refl

letter-ends_tail : (v : ℕ) → ends_tail (letter (v % 64)) ≡ false
unfolding ends_no_tail
letter-ends_tail v = ground (arith, all_below-at ends_no_tail 64 (v % 64) table)

before_query_next :
    (c : ℕ) (s : Text) → ends_tail c ≡ false → before_query s ≡ s → before_query (c ∷ s) ≡ c ∷ s
unfolding before_query
before_query_next c s h e = ground (arith, h, e)

before_query-b64u_encode : (bytes : Bytes) → before_query (b64u_encode bytes) ≡ b64u_encode bytes
unfolding b64u_encode before_query
before_query-b64u_encode [] = refl
before_query-b64u_encode (b0 ∷ []) =
    before_query_next _ _ (letter-ends_tail _) (before_query_next _ _ (letter-ends_tail _) refl)
before_query-b64u_encode (b0 ∷ b1 ∷ []) =
    before_query_next _ _ (letter-ends_tail _)
      (before_query_next _ _ (letter-ends_tail _) (before_query_next _ _ (letter-ends_tail _) refl))
before_query-b64u_encode (b0 ∷ b1 ∷ b2 ∷ bytes) = before_query_next _ _ (letter-ends_tail _) (
    before_query_next _ _ (letter-ends_tail _) (
      before_query_next _ _ (letter-ends_tail _)
        (before_query_next _ _ (letter-ends_tail _) (before_query-b64u_encode bytes))))

starts_with-prefix : (p s : Text) → starts_with (p ++ s) p ≡ true
unfolding starts_with
starts_with-prefix [] [] = refl
starts_with-prefix [] (c ∷ s) = refl
starts_with-prefix (c ∷ p) s = ground (arith, eqb_iff c c, starts_with-prefix p s)

drop-prefix : (p s : Text) → drop (length p) (p ++ s) ≡ s
drop-prefix [] s = refl
drop-prefix (c ∷ p) s = drop-prefix p s

tail_bytes-b64u_encode :
    (r : Routes) (bytes : Bytes)
    → All IsByte bytes
    → tail_bytes r (r.prefix ++ b64u_encode bytes) ≡ some bytes
unfolding tail_bytes
tail_bytes-b64u_encode r bytes h =
    rw
      (
        starts_with-prefix r.prefix (b64u_encode bytes),
        drop-prefix r.prefix (b64u_encode bytes),
        before_query-b64u_encode bytes,
        b64u_decode-b64u_encode bytes h,
      )
      refl

decode_path-b64u_encode :
    (utf8 : Utf8) (r : Routes) (bytes : Bytes)
    → All IsByte bytes
    → decode_path utf8 r (r.prefix ++ b64u_encode bytes) ≡ open_tail utf8 r bytes
unfolding decode_path
decode_path-b64u_encode utf8 r bytes h = ground (arith, tail_bytes-b64u_encode r bytes h)

keyed_decode-keyed_token :
    (utf8 : Utf8) (key : Bytes) (dest : Text)
    → is_http dest ≡ true
    → utf8.decode (utf8.encode dest) ≡ some dest
    → keyed_decode utf8 (some key) (keyed_token utf8 key dest) ≡ some dest
unfolding keyed_decode
keyed_decode-keyed_token utf8 key dest w h =
    ground (arith, w, keyed_payload-keyed_token utf8 key dest h)

is_keyed-sealed : (key d : Bytes) → is_keyed (sealed key d) ≡ true
unfolding is_keyed
is_keyed-sealed key d = ground (arith, length-sealed key d)

open_tail-sealed :
    (utf8 : Utf8) (r : Routes) (key d : Bytes)
    → open_tail utf8 r (sealed key d) ≡ open_with utf8 r.route_keys (sealed key d)
unfolding open_tail
open_tail-sealed utf8 r key d = ground (arith, is_keyed-sealed key d)

open_with-append :
    (utf8 : Utf8) (newer older : List Bytes) (key bytes : Bytes) (dest : Text)
    → All (λ k. keyed_decode utf8 (some k) bytes ≡ none) newer
    → keyed_decode utf8 (some key) bytes ≡ some dest
    → open_with utf8 (newer ++ key ∷ older) bytes ≡ some dest
unfolding open_with
open_with-append utf8 [] older key bytes dest h e = ground (arith, e)
open_with-append utf8 (k ∷ newer) older key bytes dest (hk, h) e =
    ground (arith, hk, open_with-append utf8 newer older key bytes dest h e)

-- A token minted under a key of the history opens to its destination, whatever the keys since then, as
-- long as none of those opens it.
pub decode_path-rotated :
    (utf8 : Utf8) (r : Routes) (newer older : List Bytes) (key : Bytes) (dest : Text)
    → r.route_keys ≡ newer ++ key ∷ older
    → All (λ k. keyed_decode utf8 (some k) (keyed_token utf8 key dest) ≡ none) newer
    → is_http dest ≡ true
    → utf8.decode (utf8.encode dest) ≡ some dest
    → decode_path utf8 r (r.prefix ++ b64u_encode (keyed_token utf8 key dest)) ≡ some dest
unfolding keyed_token
decode_path-rotated utf8 r newer older key dest ks h w e =
    decode_path-b64u_encode utf8 r _ (sealed-IsByte key _ (utf8.encode-IsByte dest))
    ∙ open_tail-sealed utf8 r key (utf8.encode dest)
    ∙ rw ks (
        open_with-append utf8 newer older key _ dest h (keyed_decode-keyed_token utf8 key dest w e))

-- A destination begins with an ASCII letter, so its bytes do not look like a token.
is_http-head : (s : Text) → is_http s ≡ true → (rest : Text) × (s ≡ b'h' ∷ rest)
unfolding is_http starts_with
is_http-head [] w = absurd (ground (arith, w))
is_http-head (c ∷ s) w = (s, ground (arith, w, eqb_iff c b'h'))

is_keyed-encode :
    (utf8 : Utf8) (dest : Text) → is_http dest ≡ true → is_keyed (utf8.encode dest) ≡ false
unfolding is_keyed
is_keyed-encode utf8 dest w =
    let (rest, e) = is_http-head dest w in
    rw (e, utf8.encode_ascii b'h' rest (omega arith)) (ground arith)

decode_path-encode_dest_legacy :
    (utf8 : Utf8) (r : Routes) (dest : Text)
    → is_http dest ≡ true
    → utf8.decode (utf8.encode dest) ≡ some dest
    → decode_path utf8 r (encode_dest_legacy utf8 r dest) ≡ some dest
unfolding encode_dest_legacy open_tail
decode_path-encode_dest_legacy utf8 r dest w e =
    decode_path-b64u_encode utf8 r _ (utf8.encode-IsByte dest)
    ∙ ground (arith, is_keyed-encode utf8 dest w, e, w)

-- The key that mints is the newest of the history.
newest : List Bytes → Option Bytes
newest [] = none
newest (k ∷ _) = some k

MintsNewest : Routes → Type 0
MintsNewest r = r.route_key ≡ newest r.route_keys

change-MintsNewest : (c : Change) (r : Routes) → MintsNewest r → MintsNewest (change c r)
unfolding MintsNewest newest change set_scheme set_route_key set_route_keys
change-MintsNewest (scheme p) r v = ground (arith, v)
change-MintsNewest (route_key b64) r v = ground arith
change-MintsNewest (route_keys b64s) r v = ground arith

run-MintsNewest : (cs : List Change) (r : Routes) → MintsNewest r → MintsNewest (run cs r)
unfolding run
run-MintsNewest [] r v = v
run-MintsNewest (c ∷ cs) r v = run-MintsNewest cs (change c r) (change-MintsNewest c r v)

encode_dest-none :
    (utf8 : Utf8) (r : Routes) (dest : Text)
    → r.route_key ≡ none
    → encode_dest utf8 r dest ≡ encode_dest_legacy utf8 r dest
unfolding encode_dest
encode_dest-none utf8 r dest e = ground (arith, e)

encode_dest-some :
    (utf8 : Utf8) (r : Routes) (key : Bytes) (dest : Text)
    → r.route_key ≡ some key
    → encode_dest utf8 r dest ≡ r.prefix ++ b64u_encode (keyed_token utf8 key dest)
unfolding encode_dest
encode_dest-some utf8 r key dest e = ground (arith, e)

minted-opens :
    (utf8 : Utf8) (r : Routes) (dest : Text)
    → MintsNewest r
    → is_http dest ≡ true
    → utf8.decode (utf8.encode dest) ≡ some dest
    → decode_path utf8 r (encode_dest utf8 r dest) ≡ some dest
unfolding MintsNewest newest
minted-opens utf8 r dest v w e = go r.route_keys refl
  where
    go :
        (keys : List Bytes)
        → r.route_keys ≡ keys
        → decode_path utf8 r (encode_dest utf8 r dest) ≡ some dest
    go [] ks =
        rw (encode_dest-none utf8 r dest (v ∙ ap newest ks))
          (decode_path-encode_dest_legacy utf8 r dest w e)
    go (key ∷ older) ks =
        rw (encode_dest-some utf8 r key dest (v ∙ ap newest ks))
          (decode_path-rotated utf8 r [] older key dest ks tt w e)

-- Whatever prefixes and keys were asked for since the start, an encoded destination decodes to itself,
-- keyed or not, if it is http(s) and UTF-8 carries it.
pub decode_path-encode_dest :
    (utf8 : Utf8) (cs : List Change) (dest : Text)
    → is_http dest ≡ true
    → utf8.decode (utf8.encode dest) ≡ some dest
    → (decode_path utf8 (run cs initial) (encode_dest utf8 (run cs initial) dest) ≡ some dest)
      × (decode_path utf8 (run cs initial) (encode_dest_legacy utf8 (run cs initial) dest)
          ≡ some dest)
unfolding MintsNewest newest
decode_path-encode_dest utf8 cs dest w e = (
  minted-opens utf8 (run cs initial) dest (run-MintsNewest cs initial refl) w e,
  decode_path-encode_dest_legacy utf8 (run cs initial) dest w e,
)
