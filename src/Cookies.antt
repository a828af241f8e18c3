-- ===== src/Cookies.antt =====
-- app/src/cookies.ts: the cookie jars. Here are the cookie, the parsed address and the tests that
-- scope a cookie to requests; the children hold the profiles, the header grammar, the store and
-- what is attached to a request.
pub mod Scope
pub mod Date
pub mod Header
pub mod Profiles
pub mod Jar
pub mod Origin
pub mod Request
pub mod Admit
pub mod Attach
pub mod Import
pub mod Write
use zeolite.Prelude.{
  ℕ, suc, ◌+◌, ◌-◌, Bool, true, false, not, ◌&&◌, ◌||◌, Option, none, some, List, [], ◌∷◌, ◌++◌,
  if◌then◌else◌, eqb, ltb, leb, length, get_elem?, any, all, is_some, text_eq, ◌==◌, or_else, drop,
  take,
}
use zeolite.Text.{
  Text, txt, to_lower, starts_with, ends_with, includes_unit, index_of, last_index_of, split,
  is_digit,
}
use zeolite.Url.{Url}

pub data SameSite : Type 0 where
  strict lax none_ : SameSite

pub data SameSitePolicy : Type 0 where
  off approx : SameSitePolicy

-- `ref` is the object's identity: the source compares cookies of the jar by reference, and every
-- object literal makes a new one. Times are epoch milliseconds; `expires` 0 is a session cookie.
pub record Cookie : Type 0 where
  pub ref : ℕ
  pub name : Text
  pub value : Text
  pub domain : Text
  pub host_only : Bool
  pub path : Text
  pub secure : Bool
  pub http_only : Bool
  pub same_site : Option SameSite
  pub expires : ℕ
  pub created : ℕ

pub record ParsedUrl : Type 0 where
  pub origin : Text
  pub host : Text
  pub path : Text
  pub secure : Bool

pub record CookieRequestContext : Type 0 where
  pub initiator : Option Text
  pub navigation : Bool
  pub client_id : Option Text

abbrev pub dot : ℕ
dot = b'.'

abbrev pub slash : ℕ
slash = b'/'

-- `/^\d+$/` of one label.
abbrev pub is_number : Text → Bool
is_number [] = false
is_number (c ∷ s) = all is_digit (c ∷ s)

-- `/^\d+\.\d+\.\d+\.\d+$/`, and the same with the first number 127, over the labels between dots.
abbrev four_numbers : List Text → Bool
four_numbers (a ∷ b ∷ c ∷ d ∷ []) = is_number a && (is_number b && (is_number c && is_number d))
four_numbers _ = false

abbrev loopback_numbers : List Text → Bool
loopback_numbers (a ∷ b ∷ c ∷ d ∷ []) =
    a == txt "127" && (is_number b && (is_number c && is_number d))
loopback_numbers _ = false

pub looks_like_ip : Text → Bool
looks_like_ip host = four_numbers (split dot host)

unfoldable pub is_loopback_host : Text → Bool
is_loopback_host host =
    host == txt "localhost"
    || (ends_with host (txt ".localhost")
        || (loopback_numbers (split dot host) || host == txt "[::1]"))

unfoldable pub is_secure_origin : ParsedUrl → Bool
unfolding is_loopback_host
is_secure_origin u = u.secure || is_loopback_host u.host

unfoldable pub domain_match : Text → Text → Bool
unfolding looks_like_ip
domain_match host domain =
    host == domain || ends_with host (dot ∷ domain) && not (looks_like_ip host)

-- RFC 6265 5.1.4.
unfoldable pub default_path : Text → Text
default_path p =
    if not (starts_with p (slash ∷ [])) then slash ∷ [] else elim (last_index_of slash p) [
      | none ↦ slash ∷ []
      | some i ↦ if leb i 0 then slash ∷ [] else take i p
    ]

abbrev pub is_slash : Option ℕ → Bool
is_slash none = false
is_slash (some c) = eqb c slash

unfoldable pub path_match : Text → Text → Bool
path_match req cookie =
    if cookie == slash ∷ [] || req == cookie
    then true
    else starts_with req cookie
      && (ends_with cookie (slash ∷ []) || is_slash (get_elem? req (length cookie)))

-- The public suffix list is the library tldts: `getPublicSuffix` and `getDomain` are arguments.
unfoldable pub is_public_suffix : (Text → Option Text) → Text → Bool
is_public_suffix get_public_suffix domain =
    if includes_unit dot domain
    then elim (get_public_suffix domain) [ none ↦ false | some s ↦ s == domain ]
    else false

pub site_of_host : (Text → Option Text) → Text → Text
unfolding looks_like_ip
site_of_host get_domain host =
    if looks_like_ip host || not (includes_unit dot host)
    then host
    else elim (get_domain host) [ none ↦ host | some d ↦ d ]

module _ (parse_url : Text → Option Url) where
  unfoldable pub parse_http_url : Text → Option ParsedUrl
  parse_http_url text = elim (parse_url text) [
    | none ↦ none
    | some p ↦
        if p.protocol == txt "https:" || p.protocol == txt "http:"
        then some (record {
          origin = p.origin;
          host = to_lower p.hostname;
          path = elim p.pathname [ [] ↦ slash ∷ [] | c ∷ r ↦ c ∷ r ];
          secure = p.protocol == txt "https:";
        })
        else none
  ]

module _ (parse_url : Text → Option Url) (get_domain : Text → Option Text) where
  -- `siteKey(u) === siteKey(init)`: the scheme and the registrable domain.
  unfoldable pub same_site_key : ParsedUrl → ParsedUrl → Bool
  unfolding site_of_host
  same_site_key u v =
      let same = site_of_host get_domain u.host == site_of_host get_domain v.host in
      if u.secure then v.secure && same else not v.secure && same

  -- `ctx?.initiator ? parseUrl(ctx.initiator) : null`
  unfoldable pub initiator_url : Option Text → Option ParsedUrl
  unfolding parse_http_url
  initiator_url none = none
  initiator_url (some []) = none
  initiator_url (some (c ∷ s)) = parse_http_url parse_url (c ∷ s)

  abbrev cross_site : SameSite → Bool → Bool
  cross_site strict navigation = false
  cross_site lax navigation = navigation
  cross_site none_ navigation = true

  abbrev gate : SameSite → Bool → Option ParsedUrl → ParsedUrl → Bool
  gate none_ navigation init u = true
  gate s navigation none u = true
  gate s navigation (some i) u = if same_site_key u i then true else cross_site s navigation

  unfoldable pub same_site_allows :
      SameSitePolicy → Cookie → ParsedUrl → CookieRequestContext → Bool
  unfolding same_site_key initiator_url
  same_site_allows off c u ctx = true
  same_site_allows approx c u ctx =
      gate (or_else c.same_site lax) ctx.navigation (initiator_url ctx.initiator) u
