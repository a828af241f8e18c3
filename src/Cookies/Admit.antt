-- ===== src/Cookies/Admit.antt =====
-- The second half of `admitCookie` of app/src/cookies.ts: deletion, replacement and storage. The two
-- readings of the clock are arguments, `now` for the admission and `later` for the sweep; diagnostics,
-- listeners and persistence are left out.
pub mod Isolated
pub mod Scripts
use zeolite.Prelude.{
  ℕ, suc, ◌+◌, ◌*◌, ◌-◌, Bool, true, false, not, ◌&&◌, ◌||◌, Option, none, some, List, [], ◌∷◌,
  ◌++◌, map, if◌then◌else◌, eqb, ltb, leb, is_some, or_else, any, filter, length, text_eq, ◌==◌,
}
use zeolite.Prelude.Int.{ℤ, pos_part, leb_ℕ}
use zeolite.Prelude.Maps.{get, set}
use zeolite.Prelude.Result.{Result, ok, err, ◌>>=◌, ◌>>◌, throw_if}
use zeolite.Text.{Text, txt, starts_with, includes_unit}
use zeolite.Url.{Url}
use zeolite.Cookies.{
  Cookie, SameSite, none_, ParsedUrl, dot, slash, is_secure_origin, domain_match, default_path,
  is_public_suffix, parse_http_url,
}
use zeolite.Cookies.Header.{
  pair_of, name_of, value_of, has_control, Attributes, attributes_of, cookie_byte_size,
}
use zeolite.Cookies.Profiles.{jar_key, in_profile}
use zeolite.Cookies.Jar.{Jars, retain, sweep_jar_limits}
use zeolite.Cookies.Origin.{origin_jar_id}
use zeolite.Cookies.Request.{Rejection, size, httponly, Request, check}

abbrev pub max_bytes : ℕ
max_bytes = 4096

-- `SetCookieResult`: refused, a deletion that found nothing, a deletion, or a stored cookie with
-- whether it replaced one.
pub data SetCookieResult : Type 0 where
  rejected : Rejection → SetCookieResult
  unchanged : SetCookieResult
  deleted : Option Cookie → SetCookieResult
  stored : Cookie → Bool → SetCookieResult

-- `evicted` lists the cookies that the sweep removed, for `noteEvictions`.
pub record Store : Type 0 where
  pub jars : Jars
  pub next_ref : ℕ
  pub evicted : List Cookie

abbrev same_bool : Bool → Bool → Bool
same_bool a b = if a then b else not b

-- The identity of RFC 6265: name, domain, host-only and path.
unfoldable pub same_cookie : Request → Cookie → Bool
same_cookie r c =
    c.name == r.name
    && (c.domain == r.domain && (same_bool c.host_only r.attributes.host_only && c.path == r.path))

pub is_deletion : ℕ → Attributes → Bool
is_deletion now a = elim a.max_age [
  | some m ↦ leb_ℕ m 0
  | none ↦ elim a.expires [ none ↦ false | some t ↦ leb_ℕ t now ]
]

pub expiry_of : ℕ → Attributes → ℕ
expiry_of now a = elim a.max_age [
  | some m ↦ now + pos_part m * 1000
  | none ↦ elim a.expires [ none ↦ 0 | some t ↦ pos_part t ]
]

-- The cookies of the identity in the profile, in the order of the loops, with bucket and index.
abbrev pub in_bucket : Request → Text → ℕ → List Cookie → List (Text × ℕ × Cookie)
in_bucket r k i [] = []
in_bucket r k i (c ∷ cs) =
    let rest = in_bucket r k (i + 1) cs in if same_cookie r c then (k, i, c) ∷ rest else rest

pub copies : Request → Text → Jars → List (Text × ℕ × Cookie)
copies r namespace [] = []
copies r namespace ((k, l) ∷ m) =
    let rest = copies r namespace m in
    if in_profile k namespace then in_bucket r k 0 l ++ rest else rest

-- The earliest created of them, the first if several are.
abbrev pub earliest :
    Option (Text × ℕ × Cookie) → List (Text × ℕ × Cookie) → Option (Text × ℕ × Cookie)
earliest best [] = best
earliest none (x ∷ xs) = earliest (some x) xs
earliest (some b) (x ∷ xs) = earliest (some (if ltb x.2.created b.2.created then x else b)) xs

abbrev pub cookie_of : Option (Text × ℕ × Cookie) → Option Cookie
cookie_of none = none
cookie_of (some (k, i, c)) = some c

-- A deletion: every copy in the profile goes, but a script takes no HttpOnly one.
abbrev pub retires : Bool → Request → Cookie → Bool
retires from_script r c = same_cookie r c && not (from_script && c.http_only)

pub delete_copies : Bool → Request → Text → Store → Store × SetCookieResult
unfolding copies
delete_copies from_script r namespace s =
    let gone = filter (λ (k, i, c). retires from_script r c) (copies r namespace s.jars) in
    elim (earliest none gone) [
      | none ↦ (s, unchanged)
      | some (k, i, c) ↦ (
        record s {
          jars =
              retain (λ k c. if in_profile k namespace then not (retires from_script r c) else true)
                s.jars;
        },
        deleted (some c),
      )
    ]

-- `jar[i] = fresh` in the bucket `k`.
abbrev set_at : ℕ → Cookie → List Cookie → List Cookie
set_at i c [] = []
set_at ℕ.zero c (x ∷ xs) = c ∷ xs
set_at (suc i) c (x ∷ xs) = x ∷ set_at i c xs

pub write_at : Text → ℕ → Cookie → Jars → Jars
write_at k i c [] = []
write_at k i c ((j, l) ∷ m) =
    let rest = write_at k i c m in if j == k then (j, set_at i c l) ∷ m else (j, l) ∷ rest

pub fresh_cookie : ℕ → Request → Option Cookie → ℕ → Cookie
unfolding expiry_of
fresh_cookie now r existing ref = record {
  ref = ref;
  name = r.name;
  value = r.value;
  domain = r.domain;
  host_only = r.attributes.host_only;
  path = r.path;
  secure = r.attributes.secure;
  http_only = r.attributes.http_only;
  same_site = r.attributes.same_site;
  expires = expiry_of now r.attributes;
  created = elim existing [ none ↦ now | some c ↦ c.created ];
}

abbrev pub is_http_only : Option (Text × ℕ × Cookie) → Bool
is_http_only none = false
is_http_only (some (k, i, c)) = c.http_only

module _ (parse_url : Text → Option Url) where
  -- Where the cookie goes: over its earliest copy, whose other copies in other buckets are dropped,
  -- or to the end of the response origin's bucket.
  pub place : Request → Text → Option (Text × ℕ × Cookie) → Cookie → Jars → Jars
  unfolding write_at
  place r namespace (some (k, i, c)) fresh jars = write_at k i fresh (
      retain (λ j x. if in_profile j namespace && not (j == k) then not (same_cookie r x) else true)
        jars)
  place r namespace none fresh jars =
      let key = jar_key (origin_jar_id parse_url r.url.origin) namespace in
      set key (or_else (get key jars) [] ++ fresh ∷ []) jars

  pub store_cookie : Bool → ℕ → ℕ → Request → Text → Store → Store × SetCookieResult
  unfolding fresh_cookie place copies
  store_cookie from_script now later r namespace s =
      let existing = earliest none (copies r namespace s.jars) in
      if from_script && is_http_only existing
      then (s, rejected httponly)
      else let fresh = fresh_cookie now r (cookie_of existing) s.next_ref in
        let (jars, gone) =
          sweep_jar_limits namespace (λ c. eqb c.ref fresh.ref) later
            (place r namespace existing fresh s.jars) in
        (
          record { jars = jars; next_ref = s.next_ref + 1; evicted = s.evicted ++ gone },
          stored fresh (is_some existing),
        )

  pub admit_request : Bool → ℕ → ℕ → Request → Text → Store → Store × SetCookieResult
  unfolding is_deletion delete_copies store_cookie
  admit_request from_script now later r namespace s =
      if is_deletion now r.attributes
      then delete_copies from_script r namespace s
      else if ltb max_bytes (cookie_byte_size r.name r.value)
      then (s, rejected size)
      else store_cookie from_script now later r namespace s

module _ (parse_url : Text → Option Url) (get_public_suffix : Text → Option Text) where
  pub admit_cookie : Text → Text → Bool → Text → ℕ → ℕ → Store → Store × SetCookieResult
  unfolding admit_request
  admit_cookie response_url header from_script namespace now later s =
      elim (check parse_url get_public_suffix response_url header) [
        | err e ↦ (s, rejected e)
        | ok r ↦ admit_request parse_url from_script now later r namespace s
      ]
