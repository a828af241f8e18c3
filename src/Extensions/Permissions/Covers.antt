-- ===== src/Extensions/Permissions/Covers.antt =====
-- A host permission is granted exactly for the addresses that one of the patterns covers.
use zeolite.Prelude.{
  ◌≡◌, ◌↔◌, ◌⊎◌, inl, inr, refl, sym, ap, true, false, Option, some, List, [], ◌∷◌, ◌++◌, ◌==◌,
  ==_iff, text_eq, drop, subst, In, Bool-cases, Option-cases, arith,
}
use zeolite.Prelude.Result.{ok, err}
use zeolite.Text.{Text, txt, starts_with}
use zeolite.Url.{Url}
use zeolite.Hosts.{covers, covers_iff}
use zeolite.Extensions.Permissions.{
  HostPattern, parse_host_pattern, path_matcher, among, wildcard_schemes, all_urls_schemes,
  scheme_matches, below_domain, host_matches, pattern_covers, PermissionGate, host_permission,
  host_pattern_matches, grants, host_patterns_match, has_host, require_host,
}
use zeolite.Extensions.Permissions.Globs.{Globs, glob_iff}

-- The protocol is the pattern's, or one of the web's for `*`.
unfoldable pub SchemeCovers : HostPattern → Url → Type 0
SchemeCovers pat u =
    ((pat.scheme ≡ txt "*") × (among wildcard_schemes u.protocol ≡ true))
    ⊎ ((pat.scheme == txt "*" ≡ false) × ((pat.scheme ++ txt ":") ≡ u.protocol))

-- The hostname is the domain, or a name below it.
unfoldable pub UnderDomain : Text → Text → Type 0
UnderDomain domain hostname =
    (hostname ≡ domain) ⊎ ((name : Text) × (hostname ≡ name ++ b'.' ∷ domain))

-- The host is the pattern's, or for `*.domain` the domain or a name below it.
unfoldable pub HostCovers : HostPattern → Url → Type 0
HostCovers pat u =
    (pat.host ≡ txt "*")
    ⊎ ((u.hostname ≡ pat.host)
        ⊎ ((domain : Text) × (pat.host ≡ txt "*." ++ domain) × UnderDomain domain u.hostname))

unfoldable pub PathCovers : HostPattern → Text → Type 0
PathCovers pat p = (pat.path ≡ txt "*") ⊎ ((pat.path ≡ txt "/*") ⊎ Globs pat.path p)

unfoldable pub Covers : HostPattern → Url → Type 0
Covers pat u =
    ((pat.every ≡ true) × (among all_urls_schemes u.protocol ≡ true))
    ⊎ ((pat.every ≡ false)
        × SchemeCovers pat u
        × ((pat.scheme ≡ txt "file") ⊎ HostCovers pat u)
        × PathCovers pat (u.pathname ++ u.search))

starred : (h : Text) → starts_with h (txt "*.") ≡ true → h ≡ txt "*." ++ drop 2 h
unfolding starts_with
starred [] e = absurd (ground (arith, e))
starred (c ∷ []) e = absurd (ground (arith, e))
starred (c ∷ d ∷ h) e = ground (arith, e)

below_domain-UnderDomain :
    (host hostname : Text)
    → below_domain host hostname ≡ true
    → (domain : Text) × (host ≡ txt "*." ++ domain) × UnderDomain domain hostname
unfolding below_domain UnderDomain starts_with covers
below_domain-UnderDomain host hostname h =
    let shape = starred host (ground (arith, h)) in
    let parts = subst (λ k. below_domain k hostname ≡ true) shape h in
    (drop 2 host, shape, (covers_iff (drop 2 host) hostname).0 parts)

UnderDomain-below_domain :
    (domain hostname : Text)
    → UnderDomain domain hostname
    → below_domain (txt "*." ++ domain) hostname ≡ true
unfolding below_domain UnderDomain starts_with covers
UnderDomain-below_domain domain hostname under = (covers_iff domain hostname).1 under

host_matches_iff : (pat : HostPattern) (u : Url) → (host_matches pat u ≡ true) ↔ HostCovers pat u
unfolding host_matches HostCovers
host_matches_iff pat u = (
  (λ h. elim (Bool-cases (pat.host == txt "*")) [
    | inl every ↦ inl ((==_iff pat.host (txt "*")).0 every)
    | inr named ↦ elim (Bool-cases (u.hostname == pat.host)) [
      | inl same ↦ inr (inl ((==_iff u.hostname pat.host).0 same))
      | inr other ↦
          inr (inr (below_domain-UnderDomain pat.host u.hostname (ground (arith, h, named, other))))
    ]
  ]),
  λ c. elim c [
    | inl every ↦ ground (arith, (==_iff pat.host (txt "*")).1 every)
    | inr (inl same) ↦ ground (arith, (==_iff u.hostname pat.host).1 same)
    | inr (inr (domain, shape, under)) ↦
        let reached = UnderDomain-below_domain domain u.hostname under in
        ground (arith, rw (sym shape) at reached)
  ],
)

scheme_matches_iff :
    (pat : HostPattern) (u : Url) → (scheme_matches pat u ≡ true) ↔ SchemeCovers pat u
unfolding scheme_matches SchemeCovers
scheme_matches_iff pat u =
    ground (arith, ==_iff pat.scheme (txt "*"), ==_iff (pat.scheme ++ txt ":") u.protocol)

path_matcher_iff :
    (pat : HostPattern) (p : Text) → (path_matcher pat.path p ≡ true) ↔ PathCovers pat p
unfolding path_matcher PathCovers
path_matcher_iff pat p =
    ground (arith, ==_iff pat.path (txt "*"), ==_iff pat.path (txt "/*"), glob_iff pat.path p)

pattern_covers_iff : (pat : HostPattern) (u : Url) → (pattern_covers pat u ≡ true) ↔ Covers pat u
unfolding pattern_covers Covers
pattern_covers_iff pat u = ground (
  arith,
  scheme_matches_iff pat u,
  host_matches_iff pat u,
  ==_iff pat.scheme (txt "file"),
  path_matcher_iff pat (u.pathname ++ u.search),
)

-- One of the patterns of the list parses and covers the address.
unfoldable pub Granted : (Text → Option Url) → List Text → Text → Type 0
Granted parse_url patterns url =
    (p : Text) × (pat : HostPattern) × (u : Url) × In p patterns
    × (parse_host_pattern p ≡ some pat)
    × (parse_url url ≡ some u)
    × Covers pat u

grants-Covers :
    (parse_url : Text → Option Url) (url p : Text)
    → grants parse_url url p ≡ true
    → (pat : HostPattern) × (u : Url) × (parse_host_pattern p ≡ some pat)
      × (parse_url url ≡ some u)
      × Covers pat u
unfolding grants host_pattern_matches
grants-Covers parse_url url p h = elim (Option-cases (parse_host_pattern p)) [
  | inl n ↦ absurd (ground (arith, h, n))
  | inr (pat, e) ↦ elim (Option-cases (parse_url url)) [
    | inl n ↦ absurd (ground (arith, h, e, n))
    | inr (u, q) ↦ (pat, u, e, q, (pattern_covers_iff pat u).0 (ground (arith, h, e, q)))
  ]
]

match-Granted :
    (parse_url : Text → Option Url) (patterns : List Text) (url : Text)
    → host_patterns_match parse_url patterns url ≡ true
    → Granted parse_url patterns url
unfolding host_patterns_match Granted
match-Granted parse_url [] url h = absurd (ground (arith, h))
match-Granted parse_url (p ∷ patterns) url h = elim (Bool-cases (grants parse_url url p)) [
  | inl here ↦
      let (pat, u, e, q, c) = grants-Covers parse_url url p here in (p, pat, u, inl refl, e, q, c)
  | inr later ↦
      let (q, pat, u, i, e, f, c) =
        match-Granted parse_url patterns url (ground (arith, h, later)) in
      (q, pat, u, inr i, e, f, c)
]

Granted-match :
    (parse_url : Text → Option Url) (patterns : List Text) (url p : Text) (pat : HostPattern)
    (u : Url)
    → In p patterns
    → parse_host_pattern p ≡ some pat
    → parse_url url ≡ some u
    → Covers pat u
    → host_patterns_match parse_url patterns url ≡ true
unfolding host_patterns_match grants host_pattern_matches
Granted-match parse_url [] url p pat u i e f c = absurd i
Granted-match parse_url (q ∷ patterns) url p pat u (inl same) e f c =
    ground (arith, ap parse_host_pattern same, e, f, (pattern_covers_iff pat u).1 c)
Granted-match parse_url (q ∷ patterns) url p pat u (inr i) e f c =
    ground (arith, Granted-match parse_url patterns url p pat u i e f c)

host_patterns_match_iff :
    (parse_url : Text → Option Url) (patterns : List Text) (url : Text)
    → (host_patterns_match parse_url patterns url ≡ true) ↔ Granted parse_url patterns url
unfolding Granted
host_patterns_match_iff parse_url patterns url = (
  match-Granted parse_url patterns url,
  λ g. let (p, pat, u, i, e, f, c) = g in Granted-match parse_url patterns url p pat u i e f c,
)

-- `requireHost` lets a call through exactly if one of the granted patterns covers the address: its
-- scheme, its host and its path with the query; it throws for any other address.
pub require_host_iff :
    (parse_url : Text → Option Url) (gate : PermissionGate) (url : Text)
    → ((require_host parse_url gate url ≡ ok tt) ↔ Granted parse_url gate.hosts url)
      × ((require_host parse_url gate url ≡ err (host_permission url))
          ↔ ¬ Granted parse_url gate.hosts url)
unfolding require_host has_host
require_host_iff parse_url gate url =
    let spec = host_patterns_match_iff parse_url gate.hosts url in
    (ground (arith, spec), ground (arith, spec))
