-- ===== src/Cookies/Attach.antt =====
-- What the jar of app/src/cookies.ts attaches to a request (`cookieHeaderFor`) and shows to a page
-- (`matchDocumentCookies`, `documentCookieRead`, `documentCookieItems`).
pub mod Covers
pub mod Matched
pub mod Sent
use zeolite.Prelude.{
  ℕ, suc, ◌+◌, ◌*◌, ◌-◌, Bool, true, false, not, ◌&&◌, ◌||◌, Option, none, some, List, [], ◌∷◌,
  ◌++◌, map, if◌then◌else◌, eqb, ltb, leb, is_some, or_else, any, filter, length, text_eq, ◌==◌,
}
use zeolite.Prelude.Sort.{sort}
use zeolite.Text.{Text, txt}
use zeolite.Url.{Url}
use zeolite.Cookies.{
  Cookie, SameSite, SameSitePolicy, ParsedUrl, CookieRequestContext, domain_match, path_match,
  parse_http_url, same_site_allows,
}
use zeolite.Cookies.Profiles.{Profiles, in_profile, namespace_for_client, unbound_global_namespace}
use zeolite.Cookies.Jar.{Jars, is_live, purge}

-- Domain, scheme and path scope.
unfoldable pub in_scope : ParsedUrl → Cookie → Bool
in_scope u c =
    (if c.host_only then u.host == c.domain else domain_match u.host c.domain)
    && ((not c.secure || u.secure) && path_match u.path c.path)

-- `matched.sort(…)`: longer paths first, then the earliest created.
unfoldable pub sent_before : Cookie → Cookie → Bool
sent_before a b =
    if eqb (length a.path) (length b.path)
    then leb a.created b.created
    else ltb (length b.path) (length a.path)

-- The cookies of the profile's buckets that pass a test, bucket by bucket.
pub select : Text → (Cookie → Bool) → Jars → List Cookie
select namespace test [] = []
select namespace test ((k, l) ∷ m) =
    let rest = select namespace test m in
    if in_profile k namespace then filter test l ++ rest else rest

-- `c.name + "=" + c.value`, joined by `; `.
unfoldable pub serialize : List Cookie → Text
serialize [] = []
serialize (c ∷ []) = c.name ++ (b'=' ∷ c.value)
serialize (c ∷ d ∷ cs) = c.name ++ (b'=' ∷ (c.value ++ (b';' ∷ b' ' ∷ serialize (d ∷ cs))))

-- `FacadeCookie`: a record of the cookieStore facade, without the upstream domain.
pub record FacadeCookie : Type 0 where
  pub name : Text
  pub value : Text
  pub path : Text
  pub secure : Bool
  pub same_site : Option SameSite
  pub expires : ℕ

module _ (parse_url : Text → Option Url) (get_domain : Text → Option Text)
    (encode : Text → Text) where
  pub attached : SameSitePolicy → ParsedUrl → CookieRequestContext → Text → Jars → List Cookie
  unfolding select sent_before
  attached policy u ctx namespace jars = sort sent_before (
      select namespace (λ c. in_scope u c && same_site_allows parse_url get_domain policy c u ctx)
        jars)

  -- Returns the header value and the purged jars.
  unfoldable pub cookie_header_for :
      SameSitePolicy → Profiles → Text → CookieRequestContext → ℕ → Jars → Option Text × Jars
  unfolding attached serialize
  cookie_header_for policy profiles request_url ctx now jars =
      elim (parse_http_url parse_url request_url) [
        | none ↦ (none, jars)
        | some u ↦
            let kept = purge now jars in
            let namespace = namespace_for_client encode profiles ctx.client_id in
            if namespace == unbound_global_namespace encode
            then (none, kept)
            else elim (attached policy u ctx namespace kept) [
              | [] ↦ (none, kept)
              | c ∷ cs ↦ (some (serialize (c ∷ cs)), kept)
            ]
      ]

  pub match_document_cookies : Profiles → Text → Option Text → ℕ → Jars → List Cookie
  unfolding select sent_before
  match_document_cookies profiles page_url client now jars =
      elim (parse_http_url parse_url page_url) [
        | none ↦ []
        | some u ↦
            let namespace = namespace_for_client encode profiles client in
            if namespace == unbound_global_namespace encode
            then []
            else sort sent_before (
                select namespace (λ c. not (c.http_only || not (is_live now c)) && in_scope u c)
                  jars)
      ]

  pub document_cookie_read : Profiles → Text → Option Text → ℕ → Jars → Text
  unfolding match_document_cookies serialize
  document_cookie_read profiles page_url client now jars =
      serialize (match_document_cookies profiles page_url client now jars)

  pub document_cookie_items : Profiles → Text → Option Text → ℕ → Jars → List FacadeCookie
  unfolding match_document_cookies
  document_cookie_items profiles page_url client now jars =
      map
        (λ c. record {
          name = c.name;
          value = c.value;
          path = c.path;
          secure = c.secure;
          same_site = c.same_site;
          expires = c.expires;
        })
        (match_document_cookies profiles page_url client now jars)
