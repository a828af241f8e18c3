-- ===== src/Cookies/Jar.antt =====
-- The store of app/src/cookies.ts: buckets of cookies by jar key, and the storage limits
-- (`sweepJarLimits`). `Admit` is the second half of `admitCookie`.
pub mod Limits
use zeolite.Prelude.{
  ℕ, suc, ◌+◌, ◌-◌, Bool, true, false, not, ◌&&◌, ◌||◌, Option, none, some, List, [], ◌∷◌, ◌++◌,
  map, if◌then◌else◌, eqb, ltb, leb, is_some, or_else, any, filter, length, take, text_eq, ◌==◌,
}
use zeolite.Prelude.Maps.{get, set}
use zeolite.Prelude.Sort.{sort}
use zeolite.Text.{Text}
use zeolite.Cookies.{Cookie}
use zeolite.Cookies.Profiles.{in_profile}

abbrev pub Jars : Type 0
Jars = List (Text × List Cookie)

abbrev pub Entry : Type 0
Entry = Text × Cookie

abbrev pub max_per_domain : ℕ
max_per_domain = 50

abbrev pub max_total : ℕ
max_total = 3000

abbrev pub max_safe_integer : ℕ
max_safe_integer = 9007199254740991

-- Every bucket is filtered; one that loses a cookie is written back, or deleted when it is empty.
unfoldable pub retain : (Text → Cookie → Bool) → Jars → Jars
retain keep [] = []
retain keep ((k, l) ∷ m) =
    let rest = retain keep m in
    let kept = filter (keep k) l in
    if eqb (length kept) (length l)
    then (k, l) ∷ rest
    else elim kept [ [] ↦ rest | c ∷ cs ↦ (k, c ∷ cs) ∷ rest ]

abbrev pub is_live : ℕ → Cookie → Bool
is_live now c = eqb c.expires 0 || ltb now c.expires

abbrev pub expiry_rank : Cookie → ℕ
expiry_rank c = if eqb c.expires 0 then max_safe_integer else c.expires

-- `order(a, b) <= 0`: soonest expiry first, sessions last, then the earliest created.
unfoldable pub evicts_before : Cookie → Cookie → Bool
evicts_before a b =
    if eqb (expiry_rank a) (expiry_rank b)
    then leb a.created b.created
    else ltb (expiry_rank a) (expiry_rank b)

abbrev pub bucket_entries : Text → List Cookie → List Entry
bucket_entries k [] = []
bucket_entries k (c ∷ cs) = (k, c) ∷ bucket_entries k cs

-- The live cookies of the profile with their bucket keys, bucket by bucket.
pub profile_entries : Text → ℕ → Jars → List Entry
profile_entries namespace now [] = []
profile_entries namespace now ((k, l) ∷ m) =
    let rest = profile_entries namespace now m in
    if in_profile k namespace then bucket_entries k (filter (is_live now) l) ++ rest else rest

-- `collect`: the entries grouped by stored domain, a group for each in order of its first entry.
pub group : List Entry → List (Text × List Entry) → List (Text × List Entry)
group [] m = m
group ((k, c) ∷ es) m = group es (set c.domain (or_else (get c.domain m) [] ++ (k, c) ∷ []) m)

pub collect : Text → ℕ → Jars → List (Text × List Entry)
unfolding profile_entries group
collect namespace now jars = group (profile_entries namespace now jars) []

abbrev pub flat : List (Text × List Entry) → List Entry
flat [] = []
flat ((d, es) ∷ m) = es ++ flat m

-- The first `excess` of the unprotected entries in the order of eviction.
pub doomed : (Cookie → Bool) → List Entry → ℕ → List Entry
unfolding evicts_before
doomed protect entries excess =
    take excess
      (sort (λ (k, a) (j, b). evicts_before a b) (filter (λ (k, c). not (protect c)) entries))

abbrev pub is_among : Text → Cookie → List Entry → Bool
is_among k c es = any (λ (j, d). j == k && eqb d.ref c.ref) es

-- Each doomed cookie leaves its own bucket; cookies are told apart as objects.
pub evict : (Cookie → Bool) → List Entry → ℕ → Jars → Jars × List Cookie
unfolding retain doomed
evict protect entries excess jars =
    let dead = doomed protect entries excess in
    (retain (λ k c. not (is_among k c dead)) jars, map (λ (k, c). c) dead)

-- Pass 2, over the groups that `collect` gave before it.
pub sweep_domains :
    (Cookie → Bool) → List (Text × List Entry) → Jars × List Cookie → Jars × List Cookie
unfolding evict
sweep_domains protect [] (jars, removed) = (jars, removed)
sweep_domains protect ((d, es) ∷ groups) (jars, removed) = sweep_domains protect groups (
    if ltb max_per_domain (length es)
    then (let (jars', gone) = evict protect es (length es - max_per_domain) jars in
        (jars', removed ++ gone))
    else (jars, removed))

-- Pass 3.
pub sweep_total : (Cookie → Bool) → Text → ℕ → Jars × List Cookie → Jars × List Cookie
unfolding evict collect
sweep_total protect namespace now (jars, removed) =
    let all = flat (collect namespace now jars) in
    if ltb max_total (length all)
    then (let (jars', gone) = evict protect all (length all - max_total) jars in
        (jars', removed ++ gone))
    else (jars, removed)

abbrev dead_entries : Text → ℕ → Jars → List Cookie
dead_entries namespace now [] = []
dead_entries namespace now ((k, l) ∷ m) =
    let rest = dead_entries namespace now m in
    if in_profile k namespace then filter (λ c. not (is_live now c)) l ++ rest else rest

pub drop_expired : Text → ℕ → Jars → Jars
unfolding retain
drop_expired namespace now jars =
    retain (λ k c. if in_profile k namespace then is_live now c else true) jars

-- `sweepJarLimits(namespace, protect)`: the jars that stay and the cookies removed.
pub sweep_jar_limits : Text → (Cookie → Bool) → ℕ → Jars → Jars × List Cookie
unfolding drop_expired sweep_domains sweep_total collect
sweep_jar_limits namespace protect now jars =
    let live = drop_expired namespace now jars in
    sweep_total protect namespace now
      (sweep_domains protect (collect namespace now live) (live, dead_entries namespace now jars))

-- The lazy purge of `cookieHeaderFor`: expired cookies go, in every profile.
unfoldable pub purge : ℕ → Jars → Jars
unfolding retain
purge now jars = retain (λ k c. is_live now c) jars
