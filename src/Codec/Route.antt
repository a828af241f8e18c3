-- ===== src/Codec/Route.antt =====
-- The engine's routes of app/src/codec.ts: the prefix, the route keys, and the paths that carry a
-- destination.
pub mod Prefix
pub mod Opens
pub mod Carries
use zeolite.Prelude.{
  ℕ, Bool, true, false, ◌&&◌, ◌||◌, not, Option, none, some, List, [], ◌∷◌, ◌++◌, leb, eqb, ◌==◌,
  text_eq, length, drop, any, all, filter, if◌then◌else◌, is_some,
}
use zeolite.Text.{Text, txt, starts_with}
use zeolite.Codec.{Bytes}
use zeolite.Codec.Base64.{b64u_encode, b64u_decode}
use zeolite.Codec.Token.{Utf8, keyed_token, keyed_decode, is_http}

-- `prefix`, `routeKey` and `routeKeys`.
pub record Routes : Type 0 where
  pub prefix : Text
  pub route_key : Option Bytes
  pub route_keys : List Bytes

abbrev pub initial : Routes
initial = record { prefix = txt "/j/"; route_key = none; route_keys = [] }

-- `[A-Za-z0-9_-]`.
abbrev pub is_word : ℕ → Bool
is_word c =
    leb b'A' c && leb c b'Z'
    || (leb b'a' c && leb c b'z' || (leb b'0' c && leb c b'9' || (eqb c b'_' || eqb c b'-')))

-- The text before a last `/`, if it is all of words.
unfoldable pub closed_segment : Text → Option Text
closed_segment [] = none
closed_segment (c ∷ []) = if eqb c b'/' then some [] else none
closed_segment (c ∷ d ∷ s) =
    let rest = closed_segment (d ∷ s) in
    if is_word c then elim rest [ none ↦ none | some seg ↦ some (c ∷ seg) ] else none

-- `SCHEME_PREFIX_RE`, with the segment between the slashes.
unfoldable pub scheme_segment : Text → Option Text
scheme_segment [] = none
scheme_segment (c ∷ s) =
    if eqb c b'/'
    then elim (closed_segment s) [
      | none ↦ none
      | some seg ↦ if leb 1 (length seg) && leb (length seg) 32 then some seg else none
    ]
    else none

abbrev pub reserved_scheme_segments : List Text
reserved_scheme_segments =
    txt "__zl_nav__" ∷ txt "__zl_navh__" ∷ txt "zl-ext" ∷ txt "zl-cs" ∷ txt "zlsw-register" ∷ []

unfoldable pub valid_scheme_prefix : Text → Bool
valid_scheme_prefix p = elim (scheme_segment p) [
  | none ↦ false
  | some seg ↦ not (starts_with seg (txt "__zl") || any (λ r. r == seg) reserved_scheme_segments)
]

-- `setScheme`: what it answers, and the routes after it.
unfoldable pub set_scheme : Text → Routes → Bool × Routes
set_scheme p r = if valid_scheme_prefix p then (true, record r { prefix = p }) else (false, r)

-- The bytes of a route key, if they are 16.
unfoldable pub key_bytes : Text → Option Bytes
key_bytes b64 = elim (b64u_decode b64) [
  | none ↦ none
  | some k ↦ if eqb (length k) 16 then some k else none
]

unfoldable pub set_route_key : Option Text → Routes → Routes
set_route_key b64 r =
    let key : Option Bytes = elim b64 [ none ↦ none | some b ↦ key_bytes b ] in
    record r { route_key = key; route_keys = elim key [ none ↦ [] | some k ↦ k ∷ [] ] }

unfoldable pub held_keys : List Text → List Bytes
held_keys [] = []
held_keys (b ∷ b64s) =
    let rest = held_keys b64s in elim (key_bytes b) [ none ↦ rest | some k ↦ k ∷ rest ]

unfoldable pub set_route_keys : List Text → Routes → Routes
set_route_keys b64s r =
    let keys = held_keys b64s in
    record r { route_key = elim keys [ [] ↦ none | k ∷ _ ↦ some k ]; route_keys = keys }

unfoldable pub is_engine_path : Routes → Text → Bool
is_engine_path r path = path == r.prefix || starts_with path r.prefix

-- The engine's own files, which are never routed.
abbrev pub engine_assets : List Text
engine_assets =
    txt "/sw.js"
    ∷ txt "/bootstrap.js"
    ∷ txt "/prelude.js"
    ∷ txt "/worker-prelude.js"
    ∷ txt "/devtools.html"
    ∷ txt "/devtools.js"
    ∷ txt "/index.html"
    ∷ txt "/rewriter_wasm.js"
    ∷ txt "/rewriter_wasm_bg.wasm"
    ∷ []

unfoldable pub is_engine_asset : Text → Bool
is_engine_asset path = any (λ a. a == path) engine_assets

-- `s.split(/[?#]/)[0]`.
abbrev pub ends_tail : ℕ → Bool
ends_tail c = eqb c b'?' || eqb c b'#'

unfoldable pub before_query : Text → Text
before_query [] = []
before_query (c ∷ s) = let rest = before_query s in if ends_tail c then [] else c ∷ rest

unfoldable pub tail_bytes : Routes → Text → Option Bytes
tail_bytes r path =
    if not (starts_with path r.prefix)
    then none
    else b64u_decode (before_query (drop (length r.prefix) path))

-- `bytes.length >= 17 && bytes[0] === 1`.
unfoldable pub is_keyed : Bytes → Bool
is_keyed [] = false
is_keyed (b ∷ bytes) = leb 17 (length (b ∷ bytes)) && eqb b 1

unfoldable pub looks_keyed_token : Routes → Text → Bool
looks_keyed_token r path = elim (tail_bytes r path) [ none ↦ false | some bytes ↦ is_keyed bytes ]

unfoldable pub encode_dest_legacy : Utf8 → Routes → Text → Text
encode_dest_legacy utf8 r dest = r.prefix ++ b64u_encode (utf8.encode dest)

unfoldable pub encode_dest : Utf8 → Routes → Text → Text
encode_dest utf8 r dest = elim r.route_key [
  | none ↦ encode_dest_legacy utf8 r dest
  | some key ↦ r.prefix ++ b64u_encode (keyed_token utf8 key dest)
]

-- The first key of the history that opens a token.
unfoldable pub open_with : Utf8 → List Bytes → Bytes → Option Text
open_with utf8 [] bytes = none
open_with utf8 (key ∷ keys) bytes = elim (keyed_decode utf8 (some key) bytes) [
  | none ↦ open_with utf8 keys bytes
  | some dest ↦ some dest
]

-- What a tail stands for: a keyed token opens with a key that is held, any other bytes are the
-- destination.
unfoldable pub open_tail : Utf8 → Routes → Bytes → Option Text
open_tail utf8 r bytes =
    if is_keyed bytes then open_with utf8 r.route_keys bytes else elim (utf8.decode bytes) [
      | none ↦ none
      | some dest ↦ if is_http dest then some dest else none
    ]

unfoldable pub decode_path : Utf8 → Routes → Text → Option Text
decode_path utf8 r path = elim (tail_bytes r path) [
  | none ↦ none
  | some bytes ↦ open_tail utf8 r bytes
]

-- The two segments of `/^\/([^/]+)\/([A-Za-z0-9_-]+)$/`.
unfoldable pub until_slash : Text → Option (Text × Text)
until_slash [] = none
until_slash (c ∷ s) =
    let rest = until_slash s in
    if eqb c b'/'
    then some ([], s)
    else elim rest [ none ↦ none | some (seg, tail) ↦ some (c ∷ seg, tail) ]

unfoldable pub two_segments : Text → Option (Text × Text)
two_segments [] = none
two_segments (c ∷ s) =
    if eqb c b'/'
    then elim (until_slash s) [
      | none ↦ none
      | some (seg, tail) ↦
          if leb 1 (length seg) && (leb 1 (length tail) && all is_word tail)
          then some (seg, tail)
          else none
    ]
    else none

-- The segment is the configured prefix or `zl`.
abbrev pub is_route_segment : Routes → Text → Bool
is_route_segment r seg = r.prefix == (b'/' ∷ seg ++ b'/' ∷ []) || seg == txt "zl"

unfoldable pub legacy_route_shaped : Routes → Text → Bool
legacy_route_shaped r path = elim (two_segments path) [
  | none ↦ false
  | some (seg, _) ↦ is_route_segment r seg
]

unfoldable pub decode_legacy_route : Utf8 → Routes → Text → Option Text
decode_legacy_route utf8 r path = elim (two_segments path) [
  | none ↦ none
  | some (seg, tail) ↦
      if is_route_segment r seg
      then elim (b64u_decode tail) [ none ↦ none | some bytes ↦ open_tail utf8 r bytes ]
      else none
]
