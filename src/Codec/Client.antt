-- ===== src/Codec/Client.antt =====
-- The destinations behind the addresses of app/src/codec.ts: handle routes with a visible path, the
-- address of a client, and the page that a referrer names.
pub mod Origin
pub mod Shown
use zeolite.Prelude.{
  ℕ, zero, suc, ◌≡◌, Bool, true, false, ◌&&◌, ◌||◌, not, Option, none, some, List, [], ◌∷◌, ◌++◌,
  eqb, ◌==◌, text_eq, is_some, length, take, drop, if◌then◌else◌,
}
use zeolite.Text.{Text, txt, starts_with, ends_with}
use zeolite.Url.{Url}
use zeolite.Codec.Base64.{b64u_encode, b64u_decode}
use zeolite.Codec.Token.{Utf8, is_http, dest_mac}
use zeolite.Codec.Route.{Routes, is_engine_path, until_slash, decode_path, decode_legacy_route}
use zeolite.Codec.Handle.{encode_nav_handle, decode_nav_handle}
use zeolite.Codec.Recover.{after, letters_first}
use zeolite.Codec.Query.{escape_leading_slashes, restore_leading_slashes, decode_query_handle}

-- The browser's `URL` and `decodeURIComponent`: `new URL(s)`, `new URL(s, base)`, `u.href`, the
-- assignment `u.pathname = p`, which leaves the origin, and a text without its escapes.
pub record Web : Type 0 where
  pub parse : Text → Option Url
  pub resolve : Text → Text → Option Url
  pub href : Url → Text
  pub set_pathname : Url → Text → Url
  pub set_pathname-origin : (u : Url) (p : Text) → (set_pathname u p).origin ≡ u.origin
  pub decode_component : Text → Option Text

abbrev pub navh : Text
navh = txt "/__zl_navh__"

abbrev pub navp : Text
navp = txt "/__zl_prel__"

abbrev pub nav_marker : Text
nav_marker = txt "__zl_nav__/"

unfoldable pub is_opaque_url : Url → Bool
is_opaque_url u = not (u.protocol == txt "http:") && not (u.protocol == txt "https:")

unfoldable pub is_worker_destination : Text → Bool
is_worker_destination d = d == txt "worker" || d == txt "sharedworker"

-- `s.split("#")[0]`.
unfoldable pub before_hash : Text → Text
before_hash [] = []
before_hash (c ∷ s) = let rest = before_hash s in if eqb c b'#' then [] else c ∷ rest

unfoldable pub unslash : Text → Text
unslash [] = []
unslash (c ∷ s) = if eqb c b'/' then s else c ∷ s

unfoldable pub slash_first : Text → Bool
slash_first [] = false
slash_first (c ∷ s) = eqb c b'/'

-- The text behind a marker that stands first or second.
unfoldable pub marker_tail : Text → Option Text
marker_tail [] = none
marker_tail (c ∷ s) =
    if starts_with (c ∷ s) nav_marker
    then some (drop 11 (c ∷ s))
    else if starts_with s nav_marker
    then some (drop 11 s)
    else none

-- A token and the text behind its first slash.
unfoldable pub token_and_rest : Text → Text × Text
token_and_rest tail = elim (until_slash tail) [ none ↦ (tail, []) | some parts ↦ parts ]

module _ (utf8 : Utf8) where
  unfoldable pub keyed_site_token : Routes → Text → Option Text
  keyed_site_token r origin = elim r.route_key [
    | none ↦ none
    | some key ↦ some (b64u_encode (dest_mac key (utf8.encode origin) 4))
  ]

  unfoldable pub http_text : Text → Option Text
  http_text token = elim (b64u_decode token) [
    | none ↦ none
    | some bytes ↦ elim (utf8.decode bytes) [
      | none ↦ none
      | some dest ↦ if is_http dest then some dest else none
    ]
  ]

  unfoldable pub nav_marker_tail_dest : Text → Option Text
  nav_marker_tail_dest path = elim (marker_tail path) [
    | none ↦ none
    | some tail ↦
        if eqb (letters_first tail) 0 then none else http_text (take (letters_first tail) tail)
  ]

module _ (utf8 : Utf8) (web : Web) (number : Text → Option ℕ) where
  -- The loop that peels stacked markers, for so many turns.
  unfoldable pub peel : ℕ → Text → Option Text
  peel zero cur = some cur
  peel (suc hops) cur = elim (after navp cur) [
    | none ↦ some cur
    | some seg ↦ elim (web.decode_component (before_hash (unslash seg))) [
      | none ↦ none
      | some inner ↦ peel hops inner
    ]
  ]

  -- A path, resolved against a base, that stays on the origin of the destination.
  unfoldable pub resolve_root : Text → Text → Option Text
  resolve_root dest cur = elim (web.parse dest) [
    | none ↦ none
    | some base ↦ elim (web.resolve cur (base.origin ++ b'/' ∷ [])) [
      | none ↦ none
      | some u ↦ if u.origin == base.origin then some (web.href u) else none
    ]
  ]

  abbrev pub with_slash : Text → Text
  with_slash dest = if ends_with dest (b'/' ∷ []) then dest else dest ++ b'/' ∷ []

  unfoldable pub resolve_tail : Text → Text → Option Text
  resolve_tail dest rest = elim (web.resolve rest (with_slash dest)) [
    | none ↦ none
    | some u ↦ elim (web.parse dest) [
      | none ↦ none
      | some base ↦
          if u.origin == base.origin
          then some (web.href (web.set_pathname u (restore_leading_slashes u.pathname)))
          else none
    ]
  ]

  unfoldable pub or_marked : Text → Option Text → Option Text
  or_marked path otherwise = elim (nav_marker_tail_dest utf8 path) [
    | some marked ↦ some marked
    | none ↦ otherwise
  ]

  unfoldable pub peeled_tail : Text → Option Text → Option Text
  peeled_tail dest none = none
  peeled_tail dest (some cur) =
      if not (slash_first cur) || is_some (after navp cur)
      then none
      else or_marked cur (resolve_root dest cur)

  unfoldable pub resolve_rest : Text → Text → Option Text
  resolve_rest dest rest =
      if rest == []
      then some dest
      else if slash_first rest || starts_with rest (b'\\' ∷ [])
      then none
      else if is_some (after navp rest)
      then peeled_tail dest (peel 4 rest)
      else or_marked rest (resolve_tail dest rest)

  unfoldable pub decode_nav_handle_path : Routes → ℕ → Bool → Text → Option Text
  decode_nav_handle_path r now expired tail =
      let (token, rest) = token_and_rest tail in
      elim (decode_nav_handle utf8 web.parse number r now expired token) [
        | none ↦ none
        | some dest ↦ resolve_rest dest rest
      ]

  -- `d + u.search`, for a destination.
  unfoldable pub with_search : Url → Option Text → Option Text
  with_search u none = none
  with_search u (some d) = some (d ++ u.search)

  unfoldable pub decode_route : Routes → Url → Option Text
  decode_route r u = elim (decode_path utf8 r u.pathname) [
    | some d ↦ some (d ++ u.search)
    | none ↦ with_search u (decode_legacy_route utf8 r u.pathname)
  ]

  unfoldable pub decode_client_url_no_hash : Routes → ℕ → Url → Option Text
  decode_client_url_no_hash r now u =
      if starts_with u.pathname (txt "/__zl_nav__/")
      then with_search u (http_text utf8 (drop 12 u.pathname))
      else elim (decode_query_handle utf8 web.parse number r now u) [
        | some (destination, _) ↦ some destination
        | none ↦
            if starts_with u.pathname (navh ++ b'/' ∷ [])
            then with_search u
                (decode_nav_handle_path r now false (drop (suc (length navh)) u.pathname))
            else decode_route r u
      ]

  unfoldable pub decode_client_url : Routes → ℕ → Url → Option Text
  decode_client_url r now u = elim (decode_client_url_no_hash r now u) [
    | none ↦ none
    | some d ↦ some (if u.hash == [] then d else before_hash d ++ u.hash)
  ]

  unfoldable pub build_nav_handle_url : Routes → ℕ → ℕ → Text → Text → Option Text → Option Text
  build_nav_handle_url r now ttl_ms nonce dest root =
      elim (encode_nav_handle utf8 web.parse number r now ttl_ms nonce dest root) [
        | none ↦ none
        | some token ↦ elim (web.parse dest) [
          | none ↦ none
          | some u ↦
              let path =
                if u.pathname == b'/' ∷ [] then [] else escape_leading_slashes u.pathname in
              some (navh ++ (b'/' ∷ token ++ (path ++ (u.search ++ u.hash))))
        ]
      ]

  unfoldable pub referrer_dest : Routes → Text → Text → Option Text
  referrer_dest r referrer path = elim (web.parse referrer) [
    | none ↦ none
    | some ref ↦
        if is_engine_path r ref.pathname
        then elim (decode_path utf8 r ref.pathname) [
          | none ↦ none
          | some page ↦ elim (web.parse page) [
            | none ↦ none
            | some home ↦
                if is_opaque_url home then none else elim (web.resolve path (web.href home)) [
                  | none ↦ none
                  | some u ↦ some (web.href u)
                ]
          ]
        ]
        else none
  ]
