-- ===== src/Codec/Handle.antt =====
-- The opaque navigation handles of app/src/codec.ts. The clock and the nonce, which Nonce makes, are arguments, and
-- `number` is `Number` of a text, with `none` where it is not finite.
pub mod Expiry
pub mod Reads
pub mod Mint
pub mod Nonce
use zeolite.Prelude.{
  ℕ, ◌+◌, Bool, true, false, ◌&&◌, ◌||◌, not, Option, none, some, List, [], ◌∷◌, ◌++◌, ltb, leb,
  eqb, ◌==◌, text_eq, length, take, drop, any, find, if◌then◌else◌,
}
use zeolite.Text.{Text, txt, starts_with, index_of, split}
use zeolite.Numbers.{print}
use zeolite.Url.{Url}
use zeolite.Codec.{Bytes}
use zeolite.Codec.Base64.{b64u_encode, b64u_decode}
use zeolite.Codec.Token.{Utf8, keyed_token, keyed_payload}
use zeolite.Codec.Route.{Routes}

abbrev pub navh_tag : Text
navh_tag = txt "zl:navh:"

abbrev pub navh_ttl_ms : ℕ
navh_ttl_ms = 120000

abbrev pub line_end : ℕ
line_end = 10

-- A root client id that may be bound: not empty, not long, and with no control character.
unfoldable pub valid_root : Text → Bool
valid_root s =
    leb 1 (length s) && (leb (length s) 256 && not (any (λ c. leb c 0x1F || eqb c 0x7F) s))

pub record NavHandleInfo : Type 0 where
  pub destination : Text
  pub root_client_id : Option Text
  pub expires : ℕ

-- What one key makes of a token: nothing, an end of the search, or the handle.
pub data Attempt : Type 0 where
  next stop : Attempt
  found : NavHandleInfo → Attempt

module _ (utf8 : Utf8) (parse_url : Text → Option Url) (number : Text → Option ℕ) where
  unfoldable pub mintable_dest : Text → Bool
  mintable_dest dest = elim (parse_url dest) [
    | none ↦ false
    | some u ↦ u.protocol == txt "http:" || u.protocol == txt "https:"
  ]

  -- `rootClientId` if it is given and valid.
  unfoldable pub bound_root : Option Text → Option Text
  bound_root none = none
  bound_root (some root) = if valid_root root then some root else none

  unfoldable pub root_binding : Option Text → Text
  root_binding none = []
  root_binding (some root) = line_end ∷ (txt "root:" ++ b64u_encode (utf8.encode root))

  unfoldable pub handle_payload : ℕ → Text → Text → Option Text → Text
  handle_payload expires origin nonce root =
      navh_tag
      ++ (print expires
          ++ b':' ∷ (origin ++ line_end ∷ ((txt "nonce:" ++ nonce) ++ root_binding root)))

  unfoldable pub encode_nav_handle : Routes → ℕ → ℕ → Text → Text → Option Text → Option Text
  encode_nav_handle r now ttl_ms nonce dest root_client_id = elim r.route_key [
    | none ↦ none
    | some key ↦
        if mintable_dest dest
        then elim (parse_url dest) [
          | none ↦ none
          | some u ↦ some (
              b64u_encode (
                keyed_token utf8 key
                  (handle_payload (now + ttl_ms) u.origin nonce (bound_root root_client_id))))
        ]
        else none
  ]

  -- The root that a field `root:` names; `none` for one that does not decode.
  unfoldable pub read_root : Option Text → Option (Option Text)
  read_root none = some none
  read_root (some field) = elim (b64u_decode (drop 5 field)) [
    | none ↦ none
    | some bytes ↦ elim (utf8.decode bytes) [
      | none ↦ none
      | some candidate ↦ some (if valid_root candidate then some candidate else none)
    ]
  ]

  unfoldable pub read_fields : ℕ → List Text → Attempt
  read_fields expires [] = next
  read_fields expires (dest ∷ fields) =
      elim (read_root (find (λ field. starts_with field (txt "root:")) (dest ∷ fields))) [
        | none ↦ next
        | some root ↦
            if mintable_dest dest
            then found (record { destination = dest; root_client_id = root; expires = expires })
            else next
      ]

  -- The payload behind the tag: an expiry, a colon, and lines.
  unfoldable pub read_payload : Text → Attempt
  read_payload rest = elim (index_of b':' rest) [
    | none ↦ next
    | some colon ↦ elim (number (take colon rest)) [
      | none ↦ stop
      | some expires ↦ read_fields expires (split line_end (drop (colon + 1) rest))
    ]
  ]

  unfoldable pub try_key : Bytes → Bytes → Attempt
  try_key bytes key = elim (keyed_payload utf8 (some key) bytes) [
    | none ↦ next
    | some payload ↦
        if starts_with payload navh_tag then read_payload (drop (length navh_tag) payload) else next
  ]

  unfoldable pub try_keys : Bytes → List Bytes → Option NavHandleInfo
  try_keys bytes [] = none
  try_keys bytes (key ∷ keys) = elim (try_key bytes key) [
    | next ↦ try_keys bytes keys
    | stop ↦ none
    | found info ↦ some info
  ]

  unfoldable pub decode_nav_handle_payload : Routes → Text → Option NavHandleInfo
  decode_nav_handle_payload r token = elim (b64u_decode token) [
    | none ↦ none
    | some bytes ↦ try_keys bytes r.route_keys
  ]

  unfoldable pub decode_nav_handle_info : Routes → ℕ → Bool → Text → Option NavHandleInfo
  decode_nav_handle_info r now allow_expired token = elim (decode_nav_handle_payload r token) [
    | none ↦ none
    | some info ↦ if leb now info.expires || allow_expired then some info else none
  ]

  unfoldable pub decode_nav_handle : Routes → ℕ → Bool → Text → Option Text
  decode_nav_handle r now expired token = elim (decode_nav_handle_info r now expired token) [
    | none ↦ none
    | some info ↦ some info.destination
  ]

  -- A handle past its expiry, with its destination and root.
  unfoldable pub decode_expired_nav_handle : Routes → ℕ → Text → Option (Text × Option Text)
  decode_expired_nav_handle r now token = elim (decode_nav_handle_payload r token) [
    | none ↦ none
    | some info ↦
        if ltb info.expires now then some (info.destination, info.root_client_id) else none
  ]

  unfoldable pub decode_nav_handle_root : Routes → Text → Option Text
  decode_nav_handle_root r token = elim (decode_nav_handle_payload r token) [
    | none ↦ none
    | some info ↦ info.root_client_id
  ]
