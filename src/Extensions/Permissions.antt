-- ===== src/Extensions/Permissions.antt =====
-- The permission model of app/src/extensions/permissions.ts: named permissions, and the host patterns that
-- grant addresses. The host of a pattern is taken to be ASCII.
pub mod Globs
pub mod Covers
use zeolite.Prelude.{
  ℕ, Bool, true, false, ◌&&◌, ◌||◌, not, Option, none, some, List, [], ◌∷◌, ◌++◌, leb, eqb, ◌==◌,
  text_eq, is_some, length, drop, any, all, if◌then◌else◌,
}
use zeolite.Prelude.Result.{Result, ok, err}
use zeolite.Text.{Text, txt, starts_with, ends_with, includes, to_lower}
use zeolite.Url.{Url}

abbrev pub known_permissions : List Text
known_permissions =
    txt "storage"
    ∷ txt "tabs"
    ∷ txt "scripting"
    ∷ txt "cookies"
    ∷ txt "webRequest"
    ∷ txt "webRequestBlocking"
    ∷ txt "webRequestFilterResponse"
    ∷ txt "activeTab"
    ∷ txt "notifications"
    ∷ txt "contextMenus"
    ∷ txt "menus"
    ∷ txt "downloads"
    ∷ txt "downloads.open"
    ∷ txt "downloads.ui"
    ∷ txt "history"
    ∷ txt "bookmarks"
    ∷ txt "management"
    ∷ txt "unlimitedStorage"
    ∷ txt "alarms"
    ∷ txt "idle"
    ∷ txt "privacy"
    ∷ txt "nativeMessaging"
    ∷ txt "geolocation"
    ∷ txt "clipboardRead"
    ∷ txt "clipboardWrite"
    ∷ txt "find"
    ∷ txt "browserSettings"
    ∷ txt "browsingData"
    ∷ txt "identity"
    ∷ txt "themes"
    ∷ txt "topSites"
    ∷ txt "webNavigation"
    ∷ txt "devtools"
    ∷ txt "dns"
    ∷ txt "pkcs11"
    ∷ txt "proxy"
    ∷ txt "sessions"
    ∷ txt "sidebarAction"
    ∷ txt "tabHide"
    ∷ txt "userScripts"
    ∷ []

abbrev pub among : List Text → Text → Bool
among names s = any (λ n. n == s) names

unfoldable pub is_known_permission : Text → Bool
is_known_permission p = among known_permissions p

unfoldable pub looks_like_host_pattern : Text → Bool
looks_like_host_pattern p =
    p == txt "<all_urls>" || (includes p (txt "://") || starts_with p (txt "*."))

pub record HostPattern : Type 0 where
  pub scheme : Text
  pub host : Text
  pub path : Text
  pub every : Bool

-- The text before a first `://`, and the text behind it.
unfoldable pub split_authority : Text → Option (Text × Text)
split_authority [] = none
split_authority (c ∷ s) =
    let rest = split_authority s in
    if starts_with (c ∷ s) (txt "://")
    then some ([], drop 3 (c ∷ s))
    else elim rest [ none ↦ none | some (scheme, tail) ↦ some (c ∷ scheme, tail) ]

-- The text before the first slash, and the text from it on.
unfoldable pub split_path : Text → Text × Text
split_path [] = ([], [])
split_path (c ∷ s) = let r = split_path s in if eqb c b'/' then ([], c ∷ s) else (c ∷ r.0, r.1)

abbrev pub pattern_schemes : List Text
pattern_schemes =
    txt "*" ∷ txt "http" ∷ txt "https" ∷ txt "ws" ∷ txt "wss" ∷ txt "ftp" ∷ txt "file" ∷ []

-- `.` of a regular expression.
abbrev pub is_dot : ℕ → Bool
is_dot c = not (eqb c 10 || (eqb c 13 || (eqb c 0x2028 || eqb c 0x2029)))

abbrev pub every_url : HostPattern
every_url = record { scheme = txt "*"; host = txt "*"; path = txt "*"; every = true }

unfoldable pub host_pattern : Text → Text → Text → Option HostPattern
host_pattern scheme host path =
    if not (all is_dot path)
      || ((host == [] && not (scheme == txt "file")) || not (among pattern_schemes scheme))
    then none
    else some (record {
      scheme = scheme;
      host = to_lower host;
      path = if path == [] then txt "/*" else path;
      every = false;
    })

unfoldable pub parse_host_pattern : Text → Option HostPattern
parse_host_pattern p = if p == txt "<all_urls>" then some every_url else elim (split_authority p) [
  | none ↦ none
  | some (scheme, rest) ↦ host_pattern scheme (split_path rest).0 (split_path rest).1
]

-- Some end of the text passes.
unfoldable pub some_end : (Text → Bool) → Text → Bool
some_end f [] = f []
some_end f (c ∷ s) = f (c ∷ s) || some_end f s

-- The anchored expression of a path pattern, `*` for any text.
unfoldable pub glob : Text → Text → Bool
glob [] [] = true
glob [] (d ∷ s) = false
glob (c ∷ pat) [] = eqb c b'*' && glob pat []
glob (c ∷ pat) (d ∷ s) =
    let wild = some_end (glob pat) (d ∷ s) in
    let literal = glob pat s in if eqb c b'*' then wild else eqb d c && literal

unfoldable pub path_matcher : Text → Text → Bool
path_matcher pat p = pat == txt "*" || (pat == txt "/*" || glob pat p)

abbrev pub wildcard_schemes : List Text
wildcard_schemes = txt "http:" ∷ txt "https:" ∷ txt "ws:" ∷ txt "wss:" ∷ []

abbrev pub all_urls_schemes : List Text
all_urls_schemes = wildcard_schemes ++ txt "ftp:" ∷ txt "file:" ∷ []

unfoldable pub scheme_matches : HostPattern → Url → Bool
scheme_matches pat u =
    if pat.scheme == txt "*"
    then among wildcard_schemes u.protocol
    else (pat.scheme ++ txt ":") == u.protocol

-- A host `*.domain` stands for the domain and all below it.
unfoldable pub below_domain : Text → Text → Bool
below_domain host hostname =
    starts_with host (txt "*.") && (hostname == drop 2 host || ends_with hostname (drop 1 host))

unfoldable pub host_matches : HostPattern → Url → Bool
host_matches pat u =
    pat.host == txt "*" || (u.hostname == pat.host || below_domain pat.host u.hostname)

unfoldable pub pattern_covers : HostPattern → Url → Bool
pattern_covers pat u =
    if pat.every
    then among all_urls_schemes u.protocol
    else scheme_matches pat u
      && ((pat.scheme == txt "file" || host_matches pat u)
          && path_matcher pat.path (u.pathname ++ u.search))

pub record PermissionGate : Type 0 where
  pub perms : List Text
  pub hosts : List Text

-- The errors of `require` and `requireHost`.
pub data Denied : Type 0 where
  permission host_permission : Text → Denied

abbrev pub Checked : Type 0
Checked = Result Denied (Unit {0})

module _ (parse_url : Text → Option Url) where
  unfoldable pub host_pattern_matches : HostPattern → Text → Bool
  host_pattern_matches pat url = elim (parse_url url) [
    | none ↦ false
    | some u ↦ pattern_covers pat u
  ]

  unfoldable pub grants : Text → Text → Bool
  grants url p = elim (parse_host_pattern p) [
    | none ↦ false
    | some pat ↦ host_pattern_matches pat url
  ]

  unfoldable pub host_patterns_match : List Text → Text → Bool
  host_patterns_match patterns url = any (grants url) patterns

  unfoldable pub has_host : PermissionGate → Text → Bool
  has_host gate url = host_patterns_match gate.hosts url

  unfoldable pub require_host : PermissionGate → Text → Checked
  require_host gate url = if has_host gate url then ok tt else err (host_permission url)

unfoldable pub has_permission : PermissionGate → Text → Bool
has_permission gate p = among gate.perms p

unfoldable pub require : PermissionGate → Text → Checked
require gate p = if has_permission gate p then ok tt else err (permission p)

-- The warnings after those that there are.
unfoldable pub validate : List Text → List Text → List Text
validate [] warnings = warnings
validate (p ∷ requested) warnings = validate requested (
    if not (looks_like_host_pattern p) && not (is_known_permission p)
    then warnings ++ (txt "unknown permission: " ++ p) ∷ []
    else warnings)
