-- ===== src/Codec/Challenge.antt =====
-- The repair of a challenge's return address in app/src/codec.ts.
pub mod Repaired
use zeolite.Prelude.{
  ℕ, Bool, true, false, ◌&&◌, ◌||◌, not, Option, none, some, List, [], ◌∷◌, ◌++◌, suc, eqb, ◌==◌,
  text_eq, length, drop, if◌then◌else◌,
}
use zeolite.Text.{Text, txt, starts_with, to_lower}
use zeolite.Url.{Url}
use zeolite.Codec.Token.{Utf8, is_http}
use zeolite.Codec.Route.{Routes, is_engine_path, decode_path}
use zeolite.Codec.Handle.{decode_nav_handle}
use zeolite.Codec.Client.{Web, navh, token_and_rest, decode_nav_handle_path}

-- `u.searchParams.get(name)` and the address after `u.searchParams.set(name, value)`.
pub record Params : Type 0 where
  pub get : Url → Text → Option Text
  pub set : Url → Text → Text → Url

abbrev pub redir : Text
redir = txt "redir"

-- A text that is there and not empty.
unfoldable pub filled : Option Text → Option Text
filled none = none
filled (some []) = none
filled (some (c ∷ s)) = some (c ∷ s)

-- `/^https?:/i`.
unfoldable pub http_scheme : Text → Bool
http_scheme s = starts_with (to_lower s) (txt "http:") || starts_with (to_lower s) (txt "https:")

unfoldable pub query_of : Text → Text
query_of [] = []
query_of (c ∷ s) = if eqb c b'?' then s else []

-- A path and the query behind its first `?`.
unfoldable pub path_and_query : Text → Text × Text
path_and_query [] = ([], [])
path_and_query (c ∷ s) =
    let rest = path_and_query s in if eqb c b'?' then ([], s) else (c ∷ rest.0, rest.1)

unfoldable pub with_query : Text → Text → Text
with_query d query = if query == [] then d else d ++ b'?' ∷ query

module _ (utf8 : Utf8) (web : Web) (params : Params) (number : Text → Option ℕ) where
  unfoldable pub origin_of : Text → Option Text
  origin_of s = elim (web.parse s) [ none ↦ none | some u ↦ some u.origin ]

  -- The origin of the handle that the request rides.
  unfoldable pub route_home : Routes → ℕ → Option Text → Option Text
  route_home r now none = none
  route_home r now (some path) =
      if starts_with path (navh ++ b'/' ∷ [])
      then elim (filled (
          decode_nav_handle utf8 web.parse number r now false
            (token_and_rest (drop (suc (length navh)) path)).0)) [
              | none ↦ none
              | some dest ↦ origin_of dest
            ]
      else none

  unfoldable pub pass_challenge_home : Routes → ℕ → Option Text → Option Text → Option Text
  pass_challenge_home r now none route_path = route_home r now route_path
  pass_challenge_home r now (some home) route_path =
      if http_scheme home then origin_of home else route_home r now route_path

  -- The engine path and query that a return address names; no other origin's.
  unfoldable pub challenge_route : Text → Text → Option (Text × Text)
  challenge_route engine_origin raw =
      if is_http raw
      then elim (web.parse raw) [
        | none ↦ none
        | some u ↦ if u.origin == engine_origin then some (u.pathname, query_of u.search) else none
      ]
      else some (path_and_query raw)

  unfoldable pub challenge_dest : Routes → ℕ → Text → Option Text
  challenge_dest r now path =
      if starts_with path (navh ++ b'/' ∷ [])
      then decode_nav_handle_path utf8 web number r now false (drop (suc (length navh)) path)
      else if is_engine_path r path
      then decode_path utf8 r path
      else none

  -- The page-authored path on the challenge's own origin.
  unfoldable pub rebuilt : Option Text → Text → Text → Option Text
  rebuilt none path query = none
  rebuilt (some home) path query = elim (web.resolve (with_query path query) home) [
    | none ↦ none
    | some u ↦ elim (web.parse home) [
      | none ↦ none
      | some base ↦ if u.origin == base.origin then some (web.href u) else none
    ]
  ]

  unfoldable pub challenge_target :
      Routes → ℕ → Option Text → Option Text → Text → Text → Option Text
  challenge_target r now home_origin route_path path query =
      elim (filled (challenge_dest r now path)) [
        | none ↦ rebuilt (filled (pass_challenge_home r now home_origin route_path)) path query
        | some d ↦ if is_http d then some (with_query d query) else none
      ]

  unfoldable pub redirected : Url → Option Text → Option Text
  redirected u none = none
  redirected u (some target) = some (web.href (params.set u redir target))

  unfoldable pub pass_challenge_redir_fixed :
      Routes → ℕ → Text → Text → Option Text → Option Text → Option Text
  pass_challenge_redir_fixed r now dest engine_origin home_origin route_path =
      elim (web.parse dest) [
        | none ↦ none
        | some u ↦ elim (filled (params.get u redir)) [
          | none ↦ none
          | some raw ↦ elim (challenge_route engine_origin raw) [
            | none ↦ none
            | some (path, query) ↦
                redirected u (challenge_target r now home_origin route_path path query)
          ]
        ]
      ]
