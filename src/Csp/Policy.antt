-- ===== src/Csp/Policy.antt =====
-- The reading of a policy in app/src/csp-enforce.ts, without the wasm seam, whose body this is.
pub mod Lists
pub mod Reads
pub mod Refused
use zeolite.Prelude.{
  ℕ, suc, ◌-◌, Bool, true, false, ◌&&◌, ◌||◌, not, Option, none, some, List, [], ◌∷◌, ◌++◌, leb,
  eqb, ◌==◌, text_eq, length, drop, any, all, filter, if◌then◌else◌,
}
use zeolite.Prelude.Maps.{set}
use zeolite.Text.{Text, txt, starts_with, to_lower, trim, is_space, is_digit, split}
use zeolite.Url.{Url}
use zeolite.Csp.{
  CspSource, own, every, of_scheme, of_host, HostSource, CspEnginePlan, empty_csp_plan, is_web,
  default_name,
}

abbrev pub max_policy_bytes : ℕ
max_policy_bytes = 8192

abbrev pub max_directives : ℕ
max_directives = 64

abbrev pub max_sources : ℕ
max_sources = 64

abbrev pub fetch_directives : List Text
fetch_directives =
    txt "script-src"
    ∷ txt "style-src"
    ∷ txt "img-src"
    ∷ txt "font-src"
    ∷ txt "media-src"
    ∷ txt "connect-src"
    ∷ []

abbrev pub ignored_keywords : List Text
ignored_keywords =
    txt "'none'"
    ∷ txt "'unsafe-inline'"
    ∷ txt "'unsafe-eval'"
    ∷ txt "'wasm-unsafe-eval'"
    ∷ txt "'unsafe-hashes'"
    ∷ txt "'report-sample'"
    ∷ []

pub data TokenVerdict : Type 0 where
  source : CspSource → TokenVerdict
  ignored unverifiable : TokenVerdict

abbrev pub one_of : List Text → Text → Bool
one_of names s = any (λ n. n == s) names

abbrev pub is_alpha : ℕ → Bool
is_alpha c = leb b'a' c && leb c b'z' || leb b'A' c && leb c b'Z'

-- `[a-z0-9+.-]` of either case.
abbrev pub is_scheme_unit : ℕ → Bool
is_scheme_unit c = is_alpha c || (is_digit c || (eqb c b'+' || (eqb c b'.' || eqb c b'-')))

-- `[A-Za-z0-9+/=]`.
abbrev pub is_hash_unit : ℕ → Bool
is_hash_unit c = is_alpha c || (is_digit c || (eqb c b'+' || (eqb c b'/' || eqb c b'=')))

-- `[a-z0-9.-]`.
abbrev pub is_host_unit : ℕ → Bool
is_host_unit c = leb b'a' c && leb c b'z' || (is_digit c || (eqb c b'.' || eqb c b'-'))

-- `.` of a regular expression.
abbrev pub is_dot : ℕ → Bool
is_dot c = not (eqb c 10 || (eqb c 13 || (eqb c 0x2028 || eqb c 0x2029)))

-- The longest beginning of units that pass, and the rest.
unfoldable pub span : (ℕ → Bool) → Text → Text × Text
span p [] = ([], [])
span p (c ∷ s) = let r = span p s in if p c then (c ∷ r.0, r.1) else ([], c ∷ s)

abbrev pub filled_of : (ℕ → Bool) → Text → Bool
filled_of p s = leb 1 (length s) && all p s

unfoldable pub hash_shaped : Text → Bool
hash_shaped tok =
    (starts_with tok (txt "sha256-")
      || (starts_with tok (txt "sha384-") || starts_with tok (txt "sha512-")))
    && filled_of is_hash_unit (drop 7 tok)

unfoldable pub alpha_first : Text → Bool
alpha_first [] = false
alpha_first (c ∷ s) = is_alpha c

-- The scheme of `/^[a-z][a-z0-9+.-]*:$/i`.
unfoldable pub scheme_only : Text → Option Text
scheme_only tok =
    let r = span is_scheme_unit tok in if alpha_first r.0 && r.1 == txt ":" then some r.0 else none

abbrev pub web_scheme : Text → Bool
web_scheme s = s == txt "http" || s == txt "https"

-- The optional `scheme://`: the scheme, absent if it is empty, and the rest.
unfoldable pub split_scheme : Text → Option Text × Text
split_scheme tok =
    let r = span is_scheme_unit tok in
    if starts_with r.1 (txt "://") && (r.0 == [] || alpha_first r.0)
    then (if r.0 == [] then none else some r.0, drop 3 r.1)
    else (none, tok)

-- The optional `/path` at the end.
unfoldable pub path_end : Text → Option (Option Text)
path_end [] = some none
path_end (c ∷ s) = if eqb c b'/' && all is_dot s then some (some (c ∷ s)) else none

-- `*` or digits.
unfoldable pub port_text : Text → Option (Text × Text)
port_text s =
    let r = span is_digit s in
    if starts_with s (txt "*") then some (txt "*", drop 1 s) else if r.0 == [] then none else some r

abbrev pub with_port : Option Text → Option (Option Text) → Option (Option Text × Option Text)
with_port port none = none
with_port port (some path) = some (port, path)

-- The optional `:port`, and the path.
unfoldable pub port_and_path : Text → Option (Option Text × Option Text)
port_and_path [] = some (none, none)
port_and_path (c ∷ s) =
    if eqb c b':'
    then elim (port_text s) [
      | none ↦ none
      | some (port, rest) ↦ with_port (some port) (path_end rest)
    ]
    else with_port none (path_end (c ∷ s))

unfoldable pub host_verdict : Option Text → Text → Option Text → Option Text → TokenVerdict
host_verdict scheme host port path =
    if host == txt "*"
    then source every
    else let h = to_lower host in
      let wildcard = starts_with h (txt "*.") in
      let name = if wildcard then drop 2 h else h in
      if filled_of is_host_unit name
      then source (
          of_host (record {
            scheme = scheme;
            host = name;
            wildcard = wildcard;
            port = port;
            path = path;
          }))
      else unverifiable

abbrev pub lower_scheme : Option Text → Option Text
lower_scheme none = none
lower_scheme (some s) = some (to_lower s)

abbrev pub foreign_scheme : Option Text → Bool
foreign_scheme none = false
foreign_scheme (some s) = not (web_scheme (to_lower s))

-- `[scheme://]host[:port][/path]`.
unfoldable pub host_source : Text → TokenVerdict
host_source tok =
    let (scheme, rest) = split_scheme tok in
    let (host, tail) = span (λ c. not (eqb c b'/' || eqb c b':')) rest in
    if host == [] then unverifiable else elim (port_and_path tail) [
      | none ↦ unverifiable
      | some (port, path) ↦
          if foreign_scheme scheme
          then ignored
          else host_verdict (lower_scheme scheme) host port path
    ]

unfoldable pub parse_token : Text → TokenVerdict
parse_token tok =
    if one_of ignored_keywords tok
    then ignored
    else if tok == txt "'self'"
    then source own
    else if tok == txt "'strict-dynamic'"
        || (tok == txt "'allow'" || starts_with tok (txt "'nonce-"))
    then unverifiable
    else if tok == txt "*"
    then source every
    else if hash_shaped tok
    then unverifiable
    else elim (scheme_only tok) [
      | none ↦ host_source tok
      | some s ↦ if web_scheme (to_lower s) then source (of_scheme (to_lower s)) else ignored
    ]

-- The sources of a list, `none` if one of its tokens cannot be verified.
unfoldable pub parse_source_list : List Text → Option (List CspSource)
parse_source_list [] = some []
parse_source_list (tok ∷ toks) =
    let rest = parse_source_list toks in
    elim (parse_token tok) [
      | unverifiable ↦ none
      | ignored ↦ rest
      | source s ↦ elim rest [ none ↦ none | some out ↦ some (s ∷ out) ]
    ]

-- `s.trim().split(/\\s+/)`, without the empty word of a blank text.
unfoldable pub words_from : Text → Text × List Text
words_from [] = ([], [])
words_from (c ∷ s) =
    let r = words_from s in
    if is_space c then ([], if r.0 == [] then r.1 else r.0 ∷ r.1) else (c ∷ r.0, r.1)

unfoldable pub words : Text → List Text
words s = let r = words_from s in if r.0 == [] then r.1 else r.0 ∷ r.1

-- `/^[a-z][a-z0-9-]*$/`.
unfoldable pub directive_name : Text → Bool
directive_name [] = false
directive_name (c ∷ s) =
    leb b'a' c && leb c b'z' && all (λ d. leb b'a' d && leb d b'z' || (is_digit d || eqb d b'-')) s

unfoldable pub add_list : Text → List Text → CspEnginePlan → CspEnginePlan
add_list name tokens plan =
    if leb (length tokens) 0
      || (not (leb (length tokens) max_sources)
          || not (one_of fetch_directives name || name == default_name))
    then plan
    else elim (parse_source_list tokens) [
      | none ↦ record plan { unsupported = plan.unsupported ++ name ∷ [] }
      | some list ↦
          if name == default_name then record plan { default_src = some list } else record plan {
            sources = set name list plan.sources;
            enforced = plan.enforced ++ name ∷ [];
          }
    ]

-- The loop over the directives; `empty` is returned where the policy is invalid.
unfoldable pub plan_parts : CspEnginePlan → List Text → List Text → CspEnginePlan → CspEnginePlan
plan_parts empty [] seen plan = plan
plan_parts empty (part ∷ parts) seen plan = elim (words part) [
  | [] ↦ plan_parts empty parts seen plan
  | word ∷ tokens ↦ elim (directive_name (to_lower word) && not (one_of seen (to_lower word))) [
    | false ↦ empty
    | true ↦ plan_parts empty parts (to_lower word ∷ seen) (add_list (to_lower word) tokens plan)
  ]
]

-- A control character or a comma.
abbrev pub is_forbidden : ℕ → Bool
is_forbidden c = leb c 0x1F || (eqb c 0x7F || eqb c b',')

unfoldable pub unreadable : Text → Bool
unreadable raw = trim raw == [] || (any is_forbidden raw || not (leb (length raw) max_policy_bytes))

unfoldable pub plan_text : CspEnginePlan → Text → CspEnginePlan
plan_text empty raw =
    if unreadable raw || not (leb (length (split b';' raw)) (suc max_directives))
    then empty
    else plan_parts empty (split b';' raw) [] empty

unfoldable pub plan_engine_csp : (Text → Option Url) → Text → Text → CspEnginePlan
plan_engine_csp parse_url raw doc_url = elim (parse_url doc_url) [
  | none ↦ empty_csp_plan [] (txt "https:")
  | some u ↦
      if is_web u
      then plan_text (empty_csp_plan u.origin u.protocol) raw
      else empty_csp_plan [] (txt "https:")
]
