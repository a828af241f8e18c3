-- ===== src/CrossOrigin/Foreign.antt =====
-- The classes of foreign requests in app/src/foreign.ts.
use zeolite.Prelude.{
  ◌≡◌, ◌↔◌, ◌⊎◌, inl, inr, Bool, true, false, ◌&&◌, ◌||◌, Option, none, some, ◌==◌, ==_iff, text_eq,
  is_some, if◌then◌else◌, Option-cases, Bool-cases, arith,
}
use zeolite.Text.{Text, txt}
use zeolite.Url.{Url}
use zeolite.Codec.Token.{Utf8}
use zeolite.Codec.Route.{Routes, decode_path}
use zeolite.Codec.Client.{Web, is_opaque_url}
use zeolite.Codec.Challenge.{filled}
use zeolite.Codec.Challenge.Repaired.{filled-some}

pub data ForeignPolicy : Type 0 where
  passthrough preflight route : ForeignPolicy

pub record ForeignRequest : Type 0 where
  pub request_url : Text
  pub engine_origin : Text
  pub method : Text
  pub asks_preflight : Bool
  pub client_url : Option Text
  pub has_context : Bool

module _ (utf8 : Utf8) (web : Web) (r : Routes) where
  -- The client's own address is a route that decodes.
  unfoldable pub routed_client : ForeignRequest → Bool
  routed_client input = elim (filled input.client_url) [
    | none ↦ false
    | some s ↦ elim (web.resolve s input.engine_origin) [
      | none ↦ false
      | some u ↦ is_some (decode_path utf8 r u.pathname)
    ]
  ]

  unfoldable pub classify_client : ForeignRequest → ForeignPolicy
  classify_client input =
      if input.has_context || routed_client input
      then if input.asks_preflight && input.method == txt "OPTIONS" then preflight else route
      else passthrough

  unfoldable pub classify_foreign : ForeignRequest → ForeignPolicy
  classify_foreign input = elim (web.parse input.request_url) [
    | none ↦ passthrough
    | some u ↦
        if is_opaque_url u || u.origin == input.engine_origin
        then passthrough
        else classify_client input
  ]

  -- The request is for another origin of the web, and its client is a page of the engine: it has a
  -- context, or its address decodes.
  unfoldable pub IsProxied : ForeignRequest → Type 0
  IsProxied input =
      (u : Url) × (web.parse input.request_url ≡ some u)
      × (is_opaque_url u ≡ false)
      × (¬ (u.origin ≡ input.engine_origin))
      × ((input.has_context ≡ true)
          ⊎ ((s : Text) × (client : Url) × (dest : Text) × (input.client_url ≡ some s)
              × (web.resolve s input.engine_origin ≡ some client)
              × (decode_path utf8 r client.pathname ≡ some dest)))

  routed_client-decodes :
      (input : ForeignRequest)
      → routed_client input ≡ true
      → (s : Text) × (client : Url) × (dest : Text) × (input.client_url ≡ some s)
        × (web.resolve s input.engine_origin ≡ some client)
        × (decode_path utf8 r client.pathname ≡ some dest)
  unfolding routed_client
  routed_client-decodes input h = elim (Option-cases (filled input.client_url)) [
    | inl n ↦ absurd (ground (arith, h, n))
    | inr (s, f) ↦ elim (Option-cases (web.resolve s input.engine_origin)) [
      | inl n ↦ absurd (ground (arith, h, f, n))
      | inr (client, c) ↦ elim (Option-cases (decode_path utf8 r client.pathname)) [
        | inl n ↦ absurd (ground (arith, h, f, c, n))
        | inr (dest, d) ↦ (s, client, dest, filled-some input.client_url s f, c, d)
      ]
    ]
  ]

  -- The engine takes no request but one of its own pages for another origin of the web; it answers one
  -- itself only if it is a preflight.
  pub classify_foreign-IsProxied :
      (input : ForeignRequest)
      → ¬ (classify_foreign input ≡ passthrough)
      → IsProxied input
        × ((classify_foreign input ≡ preflight)
            ↔ ((input.asks_preflight ≡ true) × (input.method ≡ txt "OPTIONS")))
  unfolding classify_foreign classify_client IsProxied
  classify_foreign-IsProxied input taken = elim (Option-cases (web.parse input.request_url)) [
    | inl n ↦ absurd (taken (ground (arith, n)))
    | inr (u, p) ↦ elim (Bool-cases (is_opaque_url u || u.origin == input.engine_origin)) [
      | inl own ↦ absurd (taken (ground (arith, p, own)))
      | inr foreign ↦ elim (Bool-cases (input.has_context || routed_client input)) [
        | inr unknown ↦ absurd (taken (ground (arith, p, foreign, unknown)))
        | inl proxied ↦ (
          (
            u,
            p,
            ground (arith, foreign),
            (λ e. ground (arith, foreign, (==_iff u.origin input.engine_origin).1 e)),
            elim (Bool-cases input.has_context) [
              | inl context ↦ inl context
              | inr bare ↦ inr (routed_client-decodes input (ground (arith, proxied, bare)))
            ],
          ),
          ground (arith, p, foreign, proxied, ==_iff input.method (txt "OPTIONS")),
        )
      ]
    ]
  ]
