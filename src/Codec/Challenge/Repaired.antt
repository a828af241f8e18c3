-- ===== src/Codec/Challenge/Repaired.antt =====
-- A repaired return address goes where the engine's route leads, or stays on the challenge's origin.
use zeolite.Prelude.{ℕ, ◌≡◌, true, false, Option, none, some, [], ◌∷◌, text_eq, ◌⊎◌, arith}
use zeolite.Text.{Text}
use zeolite.Url.{Url}
use zeolite.Codec.Token.{Utf8, is_http}
use zeolite.Codec.Route.{Routes}
use zeolite.Codec.Client.{Web}
use zeolite.Codec.Client.Origin.{OnOrigin}
use zeolite.Codec.Challenge.{
  Params, filled, query_of, path_and_query, with_query, pass_challenge_home, challenge_dest,
}

pub filled-some : (o : Option Text) (s : Text) → filled o ≡ some s → o ≡ some s
unfolding filled
filled-some none s e = absurd (ground (arith, e))
filled-some (some []) s e = absurd (ground (arith, e))
filled-some (some (c ∷ t)) s e = e

module _ (utf8 : Utf8) (web : Web) (params : Params) (number : Text → Option ℕ) (r : Routes)
    (now : ℕ) where
  -- Where a repaired return address may go.
  pub IsHome : Option Text → Option Text → Text → Text → Text → Type 0
  IsHome home_origin route_path path query target =
      ((d : Text) × (challenge_dest utf8 web params number r now path ≡ some d)
        × (is_http d ≡ true)
        × (with_query d query ≡ target))
      ⊎ ((home : Text) × (pass_challenge_home utf8 web params number r now home_origin route_path
            ≡ some home)
          × OnOrigin utf8 web number home target)

  -- The path and the query that a return address names: those of an absolute address of the engine's own
  -- origin, or what stands before and after the `?` of a relative one.
  unfoldable pub IsNamed : Text → Text → Text → Text → Type 0
  IsNamed engine_origin raw path query =
      ((is_http raw ≡ true)
        × ((w : Url) × (web.parse raw ≡ some w)
            × (w.origin ≡ engine_origin)
            × (path ≡ w.pathname)
            × (query ≡ query_of w.search)))
      ⊎ ((is_http raw ≡ false) × (path_and_query raw ≡ (path, query)))
