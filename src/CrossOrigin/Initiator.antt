-- ===== src/CrossOrigin/Initiator.antt =====
-- The origin a request is sent with is the page's, and its site is what a browser would say.
use zeolite.Prelude.{◌≡◌, [], ◌↔◌, ◌⊎◌, Option, none, some, ◌∷◌, ◌++◌, ==_iff, text_eq, arith}
use zeolite.Text.{Text, txt}
use zeolite.Hosts.{undot_host}
use zeolite.Url.{Url}
use zeolite.CrossOrigin.{
  Site, same_origin, cross_site, no_site, VirtualOriginHeaders, no_headers, web_page,
}

-- One host is the other, or a name below it.
unfoldable pub Related : Text → Text → Type 0
Related x y =
    (x ≡ y) ⊎ (((sub : Text) × (x ≡ sub ++ b'.' ∷ y)) ⊎ ((sub : Text) × (y ≡ sub ++ b'.' ∷ x)))

-- What a browser says of two pages.
pub record IsSite (from to : Url) (site : Site) : Type 0 where
  pub origin_iff : (site ≡ same_origin) ↔ (from.origin ≡ to.origin)
  pub cross_iff : (site ≡ cross_site) ↔ (
      (¬ (from.origin ≡ to.origin))
      × (¬ Related (undot_host from.hostname) (undot_host to.hostname)))
  pub known : ¬ (site ≡ no_site)

-- An address that is on the web.
abbrev pub OnWeb : (Text → Option Url) → Text → Url → Type 0
OnWeb parse_url s u =
    (parse_url s ≡ some u) × ((u.protocol ≡ txt "http:") ⊎ (u.protocol ≡ txt "https:"))

pub web_page_iff :
    (parse_url : Text → Option Url) (s : Text) (u : Url)
    → (web_page parse_url s ≡ some u) ↔ OnWeb parse_url s u
unfolding web_page
web_page_iff parse_url s u =
    ground (arith, ==_iff u.protocol (txt "http:"), ==_iff u.protocol (txt "https:"))

-- The request is made by a page on the web, and for an address on the web.
unfoldable pub IsPaged : (Text → Option Url) → Option Text → Text → Url → Url → Type 0
IsPaged parse_url initiator target from to =
    (page : Text) × (initiator ≡ some page)
    × (¬ (page ≡ []))
    × OnWeb parse_url page from
    × OnWeb parse_url target to

-- A browser names the origin with each method but GET and HEAD, and with each CORS request.
abbrev pub NamesOrigin : Text → Text → Type 0
NamesOrigin method mode =
    ((¬ (method ≡ txt "GET")) × (¬ (method ≡ txt "HEAD"))) ⊎ (mode ≡ txt "cors")

-- What a request is sent with: the headers of a browser whose page is the initiator, and nothing only
-- if there is no such page or address.
unfoldable pub IsOfPage :
    (Text → Option Url) → Option Text → Text → Text → Text → VirtualOriginHeaders → Type 0
IsOfPage parse_url initiator target method mode h =
    (((from to : Url) → ¬ IsPaged parse_url initiator target from to) × (h ≡ no_headers))
    ⊎ ((from : Url) × (to : Url) × (site : Site) × IsPaged parse_url initiator target from to
        × (NamesOrigin method mode → h.origin ≡ some from.origin)
        × ((¬ NamesOrigin method mode) → h.origin ≡ none)
        × (h.sec_fetch_site ≡ some site)
        × IsSite from to site)
