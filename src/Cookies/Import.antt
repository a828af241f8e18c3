-- ===== src/Cookies/Import.antt =====
-- The bulk operations on the jar of app/src/cookies.ts: `jarRemoveIdentities`, `jarReplace`, `jarMerge`,
-- `jarClearScope` and `jarClear`. A record from outside is `none` when it is not a stored cookie, a key
-- when it is no text, a list when it is no array. Persistence is left out.
pub mod Scoped
use zeolite.Prelude.{
  ℕ, suc, ◌+◌, ◌-◌, Bool, true, false, not, ◌&&◌, ◌||◌, Option, none, some, List, [], ◌∷◌, ◌++◌,
  if◌then◌else◌, eqb, ltb, leb, or_else, any, filter, length, text_eq, ◌==◌,
}
use zeolite.Prelude.Maps.{get, set, delete}
use zeolite.Text.{Text, includes_unit}
use zeolite.Cookies.{Cookie}
use zeolite.Cookies.Profiles.{
  Profiles, sep, profile_default, jar_key, in_profile, namespace_for_client, namespace_for_profile,
  active_profile, root_of,
}
use zeolite.Cookies.Jar.{Jars, retain}

pub record Identity : Type 0 where
  pub name : Text
  pub domain : Text
  pub host_only : Bool
  pub path : Text

abbrev pub equal_bool : Bool → Bool → Bool
equal_bool a b = if a then b else not b

unfoldable pub has_identity : Identity → Cookie → Bool
has_identity i c =
    i.name == c.name
    && (i.domain == c.domain && (equal_bool i.host_only c.host_only && i.path == c.path))

abbrev pub identity_of : Cookie → Identity
identity_of c = record { name = c.name; domain = c.domain; host_only = c.host_only; path = c.path }

pub count : Jars → ℕ
count [] = 0
count ((k, l) ∷ m) = length l + count m

-- The jars that stay and how many cookies were removed.
pub jar_remove_identities : List Identity → Text → Jars → Jars × ℕ
unfolding count
jar_remove_identities ids namespace jars =
    let kept =
      retain (λ k c. if in_profile k namespace then not (any (λ i. has_identity i c) ids) else true)
        jars in
    (kept, count jars - count kept)

-- An imported entry: its key, and its records.
abbrev pub ImportEntry : Type 0
ImportEntry = Option Text × Option (List (Option Cookie))

-- `filter(isStoredCookie)`
abbrev pub stored_cookies : List (Option Cookie) → List Cookie
stored_cookies [] = []
stored_cookies (none ∷ l) = stored_cookies l
stored_cookies (some c ∷ l) = c ∷ stored_cookies l

pub valid_import_key : Text → Bool
valid_import_key k = not (k == []) && not (includes_unit sep k)

abbrev pub drop_profile : Text → Jars → Jars
drop_profile namespace [] = []
drop_profile namespace ((k, l) ∷ m) =
    let rest = drop_profile namespace m in if in_profile k namespace then rest else (k, l) ∷ rest

abbrev put_stored : Text → List Cookie → Jars → Jars
put_stored key [] jars = jars
put_stored key (c ∷ cs) jars = set key (c ∷ cs) jars

abbrev pub put_entry : Text → ImportEntry → Jars → Jars
put_entry namespace (some k, some l) jars =
    if valid_import_key k then put_stored (jar_key k namespace) (stored_cookies l) jars else jars
put_entry namespace (some k, none) jars = jars
put_entry namespace (none, l) jars = jars

pub put_entries : Text → List ImportEntry → Jars → Jars
unfolding valid_import_key
put_entries namespace [] jars = jars
put_entries namespace (e ∷ es) jars = put_entries namespace es (put_entry namespace e jars)

pub jar_replace : List ImportEntry → Text → Jars → Jars
unfolding put_entries
jar_replace entries namespace jars = put_entries namespace entries (drop_profile namespace jars)

pub data JarConflictRule : Type 0 where
  import_wins keep_existing keep_newest : JarConflictRule

-- `jar[idx]` after a conflict.
pub resolve : JarConflictRule → Cookie → Cookie → Cookie
resolve import_wins c old = c
resolve keep_existing c old = old
resolve keep_newest c old = if ltb old.created c.created then c else old

-- One record into a bucket: the bucket, and whether it met its identity there.
pub merge_cookie : JarConflictRule → Cookie → List Cookie → List Cookie × Bool
unfolding resolve has_identity
merge_cookie rule c [] = (c ∷ [], false)
merge_cookie rule c (x ∷ xs) =
    let (rest, met) = merge_cookie rule c xs in
    if has_identity (identity_of c) x then (resolve rule c x ∷ xs, true) else (x ∷ rest, met)

pub record Merged : Type 0 where
  pub jars : ℕ
  pub cookies : ℕ
  pub conflicts : ℕ

pub merge_bucket : JarConflictRule → List Cookie → List Cookie × Merged → List Cookie × Merged
unfolding merge_cookie
merge_bucket rule [] (l, n) = (l, n)
merge_bucket rule (c ∷ cs) (l, n) =
    let (l', met) = merge_cookie rule c l in
    merge_bucket rule cs (
      l',
      (if met
          then record n { conflicts = n.conflicts + 1 }
          else record n { cookies = n.cookies + 1 }),
    )

-- A bucket is written when some record of the entry was a cookie.
abbrev pub merge_stored : JarConflictRule → Text → List Cookie → Jars × Merged → Jars × Merged
merge_stored rule key [] (jars, n) = (jars, n)
merge_stored rule key (c ∷ cs) (jars, n) =
    let (l, n') = merge_bucket rule (c ∷ cs) (or_else (get key jars) [], n) in
    (set key l jars, record n' { jars = n'.jars + 1 })

abbrev pub merge_entry : JarConflictRule → Text → ImportEntry → Jars × Merged → Jars × Merged
merge_entry rule namespace (some k, some l) s =
    if valid_import_key k then merge_stored rule (jar_key k namespace) (stored_cookies l) s else s
merge_entry rule namespace (some k, none) s = s
merge_entry rule namespace (none, l) s = s

pub merge_entries : JarConflictRule → Text → List ImportEntry → Jars × Merged → Jars × Merged
unfolding valid_import_key merge_bucket
merge_entries rule namespace [] s = s
merge_entries rule namespace (e ∷ es) s =
    merge_entries rule namespace es (merge_entry rule namespace e s)

pub jar_merge : List ImportEntry → JarConflictRule → Text → Jars → Jars × Merged
unfolding merge_entries
jar_merge entries rule namespace jars =
    merge_entries rule namespace entries (jars, record { jars = 0; cookies = 0; conflicts = 0 })
