-- ===== src/Cookies/Request/Gates.antt =====
-- What every Set-Cookie header that passes the gates of `admitCookie` satisfies.
use zeolite.Prelude.{◌≡◌, ◌≢◌, ◌⊎◌, true, false, Option, some, [], ◌∷◌, text_eq}
use zeolite.Text.{Text, starts_with}
use zeolite.Url.{Url}
use zeolite.Cookies.{slash, is_secure_origin, domain_match, is_public_suffix, parse_http_url}
use zeolite.Cookies.Header.{Attributes, has_control}
use zeolite.Cookies.Request.{Request, secure_prefix, host_prefix, is_none_site}

-- A cookie is host-only just as long as no part has given it a domain.
abbrev NoDomain : Attributes → Type 0
NoDomain a = a.host_only ≡ true → a.domain ≡ []

module _ (parse_url : Text → Option Url) (get_public_suffix : Text → Option Text) where
  -- The request may be admitted for the response's address.
  pub record IsScoped (response_url : Text) (r : Request) : Type 0 where
    pub parsed : parse_http_url parse_url response_url ≡ some r.url
    pub named : r.name ≢ []
    pub clean : (has_control r.name ≡ false) × (has_control r.value ≡ false)
    pub none_is_secure :
        (is_none_site r.attributes.same_site ≡ false) ⊎ (r.attributes.secure ≡ true)
    pub secure_origin : (r.attributes.secure ≡ false) ⊎ (is_secure_origin r.url ≡ true)
    pub domain_scopes :
        ((r.attributes.host_only ≡ true) × (r.domain ≡ r.url.host))
        ⊎ ((r.attributes.host_only ≡ false)
            × (domain_match r.url.host r.domain ≡ true)
            × (is_public_suffix get_public_suffix r.domain ≡ false))
    pub secure_prefixed : (starts_with r.name secure_prefix ≡ false) ⊎ (r.attributes.secure ≡ true)
    pub host_prefixed :
        (starts_with r.name host_prefix ≡ false)
        ⊎ ((r.attributes.secure ≡ true) × (r.attributes.host_only ≡ true) × (r.path ≡ slash ∷ []))
