-- ===== src/CrossOrigin.antt =====
-- What other origins are told and allowed: the headers of app/src/origin.ts that name the page a request
-- comes from, the response headers of app/src/cors.ts, and the classes of foreign requests of
-- app/src/foreign.ts. Headers are a map with lower-case names.
pub mod Initiator
pub mod Fetch
pub mod Sender
pub mod Cors
pub mod Foreign
use zeolite.Prelude.{
  ℕ, ◌+◌, ◌-◌, Bool, true, false, ◌&&◌, ◌||◌, not, Option, none, some, List, [], ◌∷◌, ◌++◌, suc,
  leb, eqb, ◌==◌, text_eq, is_some, if◌then◌else◌,
}
use zeolite.Text.{Text, txt, to_lower, ends_with}
use zeolite.Hosts.{undot_host}
use zeolite.Url.{Url}
use zeolite.Codec.Token.{Utf8}
use zeolite.Codec.Route.{Routes}
use zeolite.Codec.Recover.{recover_path, unwrap_dest}
use zeolite.Codec.Client.{Web, decode_client_url}
use zeolite.Codec.Challenge.{filled}

pub data Site : Type 0 where
  same_origin same_site cross_site no_site : Site

pub record VirtualOriginHeaders : Type 0 where
  pub origin : Option Text
  pub sec_fetch_site : Option Site

abbrev pub no_headers : VirtualOriginHeaders
no_headers = record { origin = none; sec_fetch_site = none }

unfoldable pub same_site_hosts : Text → Text → Bool
same_site_hosts a b =
    let x = undot_host a in
    let y = undot_host b in x == y || (ends_with x (b'.' ∷ y) || ends_with y (b'.' ∷ x))

abbrev pub is_web : Url → Bool
is_web u = u.protocol == txt "http:" || u.protocol == txt "https:"

-- `Sec-Fetch-Site` from one page to another.
unfoldable pub site_between : Url → Url → Site
site_between from to =
    if from.origin == to.origin
    then same_origin
    else if same_site_hosts from.hostname to.hostname
    then same_site
    else cross_site

-- A browser sends Origin with what is not GET or HEAD, and with every CORS request.
unfoldable pub sends_origin : Text → Text → Bool
sends_origin method mode =
    not (method == txt "GET") && not (method == txt "HEAD") || mode == txt "cors"

module _ (parse_url : Text → Option Url) where
  -- The page of an initiator that is on the web.
  unfoldable pub web_page : Text → Option Url
  web_page s = elim (parse_url s) [ none ↦ none | some u ↦ if is_web u then some u else none ]

  unfoldable pub virtual_origin_headers : Option Text → Text → Text → Text → VirtualOriginHeaders
  virtual_origin_headers initiator target method mode = elim (filled initiator) [
    | none ↦ no_headers
    | some page ↦ elim (web_page target) [
      | none ↦ no_headers
      | some to ↦ elim (web_page page) [
        | none ↦ no_headers
        | some from ↦ record {
          origin = if sends_origin method mode then some from.origin else none;
          sec_fetch_site = some (site_between from to);
        }
      ]
    ]
  ]

  unfoldable pub virtual_referer_fallback : Option Text → Option Text
  virtual_referer_fallback initiator = elim (filled initiator) [
    | none ↦ none
    | some page ↦ elim (web_page page) [ none ↦ none | some u ↦ some (u.origin ++ b'/' ∷ []) ]
  ]

pub record SecFetchHeaderSet : Type 0 where
  pub site : Option Site
  pub mode : Text
  pub dest : Text
  pub user : Bool
  pub upgrade : Bool

abbrev pub lower_dest : Text → Text
lower_dest destination = if destination == [] then txt "empty" else to_lower destination

unfoldable pub navigation_headers : Option Site → Text → Bool → SecFetchHeaderSet
navigation_headers site dest main_surface = elim site [
  | none ↦ record {
    site = some no_site;
    mode = txt "navigate";
    dest = txt "document";
    user = true;
    upgrade = true;
  }
  | some known ↦ record {
    site = some known;
    mode = txt "navigate";
    dest =
        if main_surface
        then txt "document"
        else if dest == txt "empty"
        then txt "document"
        else dest;
    user = false;
    upgrade = true;
  }
]

unfoldable pub sec_fetch_headers :
    (Text → Option Url) → Option Text → Text → Text → Text → Text → Bool → SecFetchHeaderSet
sec_fetch_headers parse_url initiator target method mode destination main_surface =
    let site = (virtual_origin_headers parse_url initiator target method mode).sec_fetch_site in
    let dest = lower_dest destination in
    if mode == txt "navigate"
    then navigation_headers site dest main_surface
    else record { site = site; mode = mode; dest = dest; user = false; upgrade = false }

module _ (utf8 : Utf8) (web : Web) (number : Text → Option ℕ) where
  -- `decodeClientUrl(cu) ?? recoverPath(cu.pathname)`.
  unfoldable pub client_dest : Routes → ℕ → Url → Option Text
  client_dest r now cu = elim (decode_client_url utf8 web number r now cu) [
    | some dest ↦ some dest
    | none ↦ recover_path utf8 r cu.pathname
  ]

  unfoldable pub sender_virtual_origin : Routes → ℕ → Option Text → Text → Option Text
  sender_virtual_origin r now client_url engine_origin = elim (filled client_url) [
    | none ↦ none
    | some s ↦ elim (web.resolve s engine_origin) [
      | none ↦ none
      | some cu ↦
          if cu.origin == engine_origin
          then elim (filled (client_dest r now cu)) [
            | none ↦ none
            | some raw ↦ elim (web_page web.parse (unwrap_dest utf8 web.parse r raw)) [
              | none ↦ none
              | some page ↦ some page.origin
            ]
          ]
          else none
    ]
  ]

-- The weight of a language in tenths, from its place in the list.
unfoldable pub tenths : ℕ → ℕ
tenths i = if leb i 9 then 10 - i else 1

unfoldable pub weighted : ℕ → List Text → Text
weighted i [] = []
weighted i (l ∷ languages) =
    b',' ∷ (l ++ (txt ";q=0." ++ (48 + tenths i) ∷ weighted (suc i) languages))

unfoldable pub accept_language_value : List Text → Text
accept_language_value [] = []
accept_language_value (l ∷ languages) = l ++ weighted 1 languages
