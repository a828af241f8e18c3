-- ===== src/Cookies/Attach/Covers.antt =====
-- Which requests a cookie is for, by RFC 6265 5.4 and the SameSite approximation of
-- app/src/cookies.ts: `domainMatch`, `pathMatch`, `sameSiteAllows` and the test of `cookieHeaderFor`.
use zeolite.Prelude.{
  ℕ, ◌≡◌, refl, subst, ◌↔◌, ◌⊎◌, inl, inr, ◌<◌, true, false, Option, none, some, [], ◌∷◌, ◌++◌,
  arith, Option-cases, text_eq, ◌==◌, ==_iff, if◌then◌else◌,
}
use zeolite.Text.{Text}
use zeolite.Hosts.{ends_with_iff}
use zeolite.Url.{Url}
use zeolite.Cookies.{
  Cookie, strict, none_, SameSitePolicy, off, approx, ParsedUrl, CookieRequestContext, dot, slash,
  parse_http_url, looks_like_ip, domain_match, site_of_host, same_site_key, initiator_url,
  same_site_allows,
}
use zeolite.Cookies.Scope.{IsBelow, path_match_iff}
use zeolite.Cookies.Jar.{is_live}
use zeolite.Cookies.Attach.{in_scope}

-- A host-only cookie is for its own host alone; another one is for its domain and for the names below
-- it, which numbers of an address are not.
unfoldable pub CoversHost : Text → Cookie → Type 0
CoversHost host c =
    (host ≡ c.domain)
    ⊎ ((c.host_only ≡ false)
        × ((sub : Text) × (host ≡ sub ++ dot ∷ c.domain))
        × (looks_like_ip host ≡ false))

-- The cookie is for the address: its host, a secure scheme where the cookie is Secure, and its path.
unfoldable pub Covers : ParsedUrl → Cookie → Type 0
Covers u c =
    CoversHost u.host c
    × ((c.secure ≡ true) → (u.secure ≡ true))
    × ((c.path ≡ slash ∷ []) ⊎ ((u.path ≡ c.path) ⊎ IsBelow c.path u.path))

domain_match_iff :
    (host domain : Text)
    → (domain_match host domain ≡ true) ↔ (
        (host ≡ domain)
        ⊎ (((sub : Text) × (host ≡ sub ++ dot ∷ domain)) × (looks_like_ip host ≡ false)))
unfolding domain_match
domain_match_iff host domain = ground (arith, ==_iff host domain, ends_with_iff host (dot ∷ domain))

CoversHost-iff :
    (u : ParsedUrl) (c : Cookie)
    → ((if c.host_only then u.host == c.domain else domain_match u.host c.domain) ≡ true)
      ↔ CoversHost u.host c
unfolding CoversHost
CoversHost-iff u c = ground (arith, ==_iff u.host c.domain, domain_match_iff u.host c.domain)

pub in_scope_iff : (u : ParsedUrl) (c : Cookie) → (in_scope u c ≡ true) ↔ Covers u c
unfolding in_scope Covers
in_scope_iff u c = ground (arith, CoversHost-iff u c, path_match_iff u.path c.path)

-- A session cookie, or one that expires later.
abbrev pub IsLive : ℕ → Cookie → Type 0
IsLive now c = (c.expires ≡ 0) ⊎ (now < c.expires)

pub is_live_iff : (now : ℕ) (c : Cookie) → (is_live now c ≡ true) ↔ IsLive now c
is_live_iff now c = ground arith

module _ (parse_url : Text → Option Url) (get_domain : Text → Option Text) where
  -- The request is known to come from a page on the web.
  abbrev pub IsInitiated : Option Text → ParsedUrl → Type 0
  IsInitiated initiator i =
      (s : Text) × (initiator ≡ some s) × (¬ (s ≡ [])) × (parse_http_url parse_url s ≡ some i)

  -- The same scheme and the same registrable domain.
  abbrev pub IsSameSite : ParsedUrl → ParsedUrl → Type 0
  IsSameSite u i =
      (u.secure ≡ i.secure) × (site_of_host get_domain u.host ≡ site_of_host get_domain i.host)

  -- With the policy off every cookie may ride; with it on, a SameSite=None cookie may, and another
  -- one unless a page of another site is known to make the request: then only a cookie that is not
  -- strict may, on a navigation.
  unfoldable pub MayRide : SameSitePolicy → Cookie → ParsedUrl → CookieRequestContext → Type 0
  MayRide policy c u ctx =
      (policy ≡ off)
      ⊎ ((c.same_site ≡ some none_)
          ⊎ ((i : ParsedUrl)
              → IsInitiated ctx.initiator i
              → IsSameSite u i ⊎ ((¬ (c.same_site ≡ some strict)) × (ctx.navigation ≡ true))))

  same_site_key_iff :
      (u i : ParsedUrl) → (same_site_key parse_url get_domain u i ≡ true) ↔ IsSameSite u i
  unfolding same_site_key
  same_site_key_iff u i =
      ground (arith, ==_iff (site_of_host get_domain u.host) (site_of_host get_domain i.host))

  initiator_url_iff :
      (initiator : Option Text) (i : ParsedUrl)
      → (initiator_url parse_url get_domain initiator ≡ some i) ↔ IsInitiated initiator i
  unfolding initiator_url
  initiator_url_iff none i =
      (λ e. absurd (ground (arith, e)), λ (s, e, n, q). absurd (ground (arith, e)))
  initiator_url_iff (some []) i =
      (λ e. absurd (ground (arith, e)), λ (s, e, n, q). absurd (n (ground (arith, e))))
  initiator_url_iff (some (c ∷ s)) i =
      (λ e. (c ∷ s, refl, (λ n. ground (arith, n)), e), λ (t, e, n, q). ground (arith, e, q))

  pub same_site_allows_iff :
      (policy : SameSitePolicy) (c : Cookie) (u : ParsedUrl) (ctx : CookieRequestContext)
      → (same_site_allows parse_url get_domain policy c u ctx ≡ true) ↔ MayRide policy c u ctx
  unfolding same_site_allows MayRide
  same_site_allows_iff off c u ctx = (λ e. inl refl, λ h. refl)
  same_site_allows_iff approx c u ctx =
      let initiated = initiator_url_iff ctx.initiator in
      elim (Option-cases (initiator_url parse_url get_domain ctx.initiator)) [
        | inl n ↦ (
          λ e. inr (inr (λ i s. absurd (ground (arith, n, (initiated i).1 s)))),
          λ h. ground (arith, n),
        )
        | inr (j, n) ↦ (
          λ e.
              let found : (c.same_site ≡ some none_)
                  ⊎ (IsSameSite u j ⊎ ((¬ (c.same_site ≡ some strict)) × (ctx.navigation ≡ true))) =
                ground (arith, n, e, same_site_key_iff u j) in
              elim found [
                | inl none_site ↦ inr (inl none_site)
                | inr rides ↦ inr (
                    inr (λ i s.
                      let same : j ≡ i = ground (arith, n, (initiated i).1 s) in
                      subst
                        (λ k.
                          IsSameSite u k
                          ⊎ ((¬ (c.same_site ≡ some strict)) × (ctx.navigation ≡ true)))
                        same rides))
              ],
          λ h. elim h [
            | inl o ↦ absurd (ground (arith, o))
            | inr (inl none_site) ↦ ground (arith, n, none_site)
            | inr (inr f) ↦ ground (arith, n, f j ((initiated j).0 n), same_site_key_iff u j)
          ],
        )
      ]
