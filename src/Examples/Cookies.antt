-- ===== src/Examples/Cookies.antt =====
-- The cookie jar on a response and a request of one site, and the theorems about it at these values.
use zeolite.Prelude.{
  List, ℕ, ◌≡◌, refl, ◌↔◌, Bool, true, false, none, some, [], ◌∷◌, ◌++◌, In, text_eq, ◌==◌,
  list_beq,
}
use zeolite.Prelude.Int.{pos}
use zeolite.Prelude.Maps.{get}
use zeolite.Text.{Text, txt, split, to_lower}
use zeolite.Cookies.{Cookie, approx, ParsedUrl, CookieRequestContext, parse_http_url}
use zeolite.Cookies.Date.{tokens_from, parse_cookie_date}
use zeolite.Cookies.Date.Windows.{Names, parse_cookie_date-Names}
use zeolite.Cookies.Header.{no_attributes}
use zeolite.Cookies.Request.{Request}
use zeolite.Cookies.Profiles.{
  Profiles, init, profile_default, namespace_for_client, unbound_global_namespace,
}
use zeolite.Cookies.Jar.{Jars}
use zeolite.Cookies.Jar.Limits.{outside}
use zeolite.Cookies.Admit.{Store, admit_cookie}
use zeolite.Cookies.Admit.Isolated.{admit_cookie-outside}
use zeolite.Cookies.Attach.{cookie_header_for, match_document_cookies}
use zeolite.Cookies.Attach.Covers.{Covers, IsLive}
use zeolite.Cookies.Attach.Matched.{Held, match_document_cookies_iff}
use zeolite.Cookies.Attach.Sent.{IsAttached, cookie_header_for-IsAttached}
use zeolite.Cookies.Import.{
  ImportEntry, identity_of, keep_newest, jar_remove_identities, jar_replace, jar_merge,
}
use zeolite.Cookies.Import.Scoped.{import-outside}
use zeolite.Examples.{simple_url, suffixes, domains, plain}

abbrev page : Text
page = txt "https://a.com/x/y"

abbrev page_url : ParsedUrl
page_url = record {
  origin = txt "https://a.com";
  host = txt "a.com";
  path = txt "/x/y";
  secure = true;
}

abbrev header : Text
header = txt "__Host-id=7; Secure; Path=/"

abbrev request : Request
request = record {
  name = txt "__Host-id";
  value = txt "7";
  domain = txt "a.com";
  attributes = record no_attributes { secure = true; path = txt "/" };
  path = txt "/";
  url = page_url;
}

abbrev cookie : ℕ → Text → Bool → Cookie
cookie ref path http_only = record {
  ref = ref;
  name = txt "__Host-id";
  value = txt "1";
  domain = txt "a.com";
  host_only = true;
  path = path;
  secure = true;
  http_only = http_only;
  same_site = none;
  expires = 0;
  created = ref;
}

abbrev key : Text
key = txt "o61"

abbrev jars : Jars
jars =
    (key, cookie 1 (txt "/") true ∷ cookie 2 (txt "/x") false ∷ [])
    ∷ (txt "client:7:p" ++ (0 ∷ key), cookie 3 (txt "/") false ∷ [])
    ∷ []

abbrev store : Store
store = record { jars = jars; next_ref = 4; evicted = [] }

abbrev context : CookieRequestContext
context = record { initiator = some (txt "https://b.com/"); navigation = true; client_id = none }

parsed_page : parse_http_url simple_url page ≡ some page_url
unfolding parse_http_url simple_url split to_lower list_beq
parsed_page = refl

admit_cookie-outside_example :
    outside profile_default
      (admit_cookie simple_url suffixes page header false profile_default 10 11 store).0.jars
    ≡ outside profile_default jars
admit_cookie-outside_example =
    admit_cookie-outside simple_url suffixes page header false profile_default 10 11 store

cookie_header_for-IsAttached_example :
    IsAttached simple_url domains plain approx init page context 10 jars
      (cookie_header_for simple_url domains plain approx init page context 10 jars).0
cookie_header_for-IsAttached_example =
    cookie_header_for-IsAttached simple_url domains plain approx init page context 10 jars

-- The page reads the cookie of its path only, not the HttpOnly one.
match_document_cookies_iff_example :
    In
      (cookie 2 (txt "/x") false)
      (match_document_cookies simple_url domains plain init page none 10 jars)
    ↔ ((u : ParsedUrl) × (parse_http_url simple_url page ≡ some u)
        × (¬ (namespace_for_client plain init none ≡ unbound_global_namespace plain))
        × Held (namespace_for_client plain init none) jars (cookie 2 (txt "/x") false)
        × (false ≡ false)
        × IsLive 10 (cookie 2 (txt "/x") false)
        × Covers u (cookie 2 (txt "/x") false))
match_document_cookies_iff_example =
    match_document_cookies_iff simple_url domains plain init page none 10 jars
      (cookie 2 (txt "/x") false)

abbrev date : Text
date = txt "Sun, 06 Nov 1994 08:49:37 GMT"

dated : parse_cookie_date date ≡ some (pos 784111777000)
unfolding parse_cookie_date to_lower list_beq
dated = refl

parse_cookie_date-Names_example : Names (tokens_from [] date) (pos 784111777000)
parse_cookie_date-Names_example = parse_cookie_date-Names date (pos 784111777000) dated

abbrev imported : List ImportEntry
imported =
    (some (txt "o62"), some (some (cookie 9 (txt "/") false) ∷ none ∷ [])) ∷ (none, none) ∷ []

import-outside_example :
    (outside profile_default
        (jar_remove_identities (identity_of (cookie 1 (txt "/") true) ∷ []) profile_default jars).0
      ≡ outside profile_default jars)
    × (outside profile_default (jar_replace imported profile_default jars)
        ≡ outside profile_default jars)
    × (outside profile_default (jar_merge imported keep_newest profile_default jars).0
        ≡ outside profile_default jars)
import-outside_example =
    import-outside (identity_of (cookie 1 (txt "/") true) ∷ []) imported keep_newest profile_default
      jars

-- A client marked unbound while the root `d` has a profile.
abbrev lost_client : Profiles
lost_client = record init {
  client_roots = (txt "d", txt "d") ∷ [];
  root_profiles = (txt "d", txt "v") ∷ [];
  unbound_clients = txt "x" ∷ [];
}

lost :
    namespace_for_client plain lost_client (some (txt "x")) == unbound_global_namespace plain ≡ true
unfolding namespace_for_client unbound_global_namespace get list_beq
lost = refl
