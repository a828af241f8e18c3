-- ===== src/Cookies/Import/Scoped.antt =====
-- The bulk operations stay inside the profile that they name, and a merge loses no identity.
use mathlib.Core.List.{append_assoc, append-nil}
use zeolite.Prelude.{
  ap, ◌+◌, ◌≡◌, refl, ◌∙◌, inl, inr, true, none, some, List, [], ◌∷◌, ◌++◌, arith, if◌then◌else◌,
  length, text_eq, ◌==◌, Bool-cases,
}
use zeolite.Text.{Text}
use zeolite.Cookies.{Cookie}
use zeolite.Cookies.Profiles.{sep, profile_default, jar_key, in_profile}
use zeolite.Cookies.Jar.{Jars}
use zeolite.Cookies.Jar.Limits.{outside, outside-retain}
use zeolite.Cookies.Admit.Isolated.{starts_with-append, outside-set}
use zeolite.Cookies.Import.{
  Identity, has_identity, identity_of, jar_remove_identities, ImportEntry, stored_cookies,
  valid_import_key, drop_profile, put_stored, put_entry, put_entries, jar_replace, JarConflictRule,
  keep_existing, resolve, merge_cookie, Merged, merge_bucket, merge_stored, merge_entry,
  merge_entries, jar_merge,
}

in_profile-import :
    (k namespace : Text)
    → valid_import_key k ≡ true
    → in_profile (jar_key k namespace) namespace ≡ true
unfolding jar_key in_profile valid_import_key
in_profile-import k namespace h = elim (Bool-cases (namespace == profile_default)) [
  | inl e ↦ ground arith
  | inr e ↦ rw e (starts_with-append namespace k sep)
]

outside-drop_profile : (n : Text) (m : Jars) → outside n (drop_profile n m) ≡ outside n m
outside-drop_profile n [] = refl
outside-drop_profile n ((k, l) ∷ m) = ground (arith, outside-drop_profile n m)

outside-put_stored :
    (n key : Text) (l : List Cookie) (m : Jars)
    → in_profile key n ≡ true
    → outside n (put_stored key l m) ≡ outside n m
outside-put_stored n key [] m h = refl
outside-put_stored n key (c ∷ cs) m h = outside-set n key (c ∷ cs) m h

outside-put_entry :
    (n : Text) (e : ImportEntry) (m : Jars) → outside n (put_entry n e m) ≡ outside n m
outside-put_entry n (some k, some l) m = elim (Bool-cases (valid_import_key k)) [
  | inl e ↦ rw e (outside-put_stored n (jar_key k n) (stored_cookies l) m (in_profile-import k n e))
  | inr e ↦ rw e refl
]
outside-put_entry n (some k, none) m = refl
outside-put_entry n (none, l) m = refl

outside-put_entries :
    (n : Text) (es : List ImportEntry) (m : Jars) → outside n (put_entries n es m) ≡ outside n m
unfolding put_entries
outside-put_entries n [] m = refl
outside-put_entries n (e ∷ es) m =
    outside-put_entries n es (put_entry n e m) ∙ outside-put_entry n e m

outside-merge_stored :
    (rule : JarConflictRule) (n key : Text) (l : List Cookie) (s : Jars × Merged)
    → in_profile key n ≡ true
    → outside n (merge_stored rule key l s).0 ≡ outside n s.0
outside-merge_stored rule n key [] (m, w) h = refl
outside-merge_stored rule n key (c ∷ cs) (m, w) h = outside-set n key _ m h

outside-merge_entry :
    (rule : JarConflictRule) (n : Text) (e : ImportEntry) (s : Jars × Merged)
    → outside n (merge_entry rule n e s).0 ≡ outside n s.0
outside-merge_entry rule n (some k, some l) s = elim (Bool-cases (valid_import_key k)) [
  | inl e ↦
      rw e
        (outside-merge_stored rule n (jar_key k n) (stored_cookies l) s (in_profile-import k n e))
  | inr e ↦ rw e refl
]
outside-merge_entry rule n (some k, none) s = refl
outside-merge_entry rule n (none, l) s = refl

outside-merge_entries :
    (rule : JarConflictRule) (n : Text) (es : List ImportEntry) (s : Jars × Merged)
    → outside n (merge_entries rule n es s).0 ≡ outside n s.0
unfolding merge_entries
outside-merge_entries rule n [] s = refl
outside-merge_entries rule n (e ∷ es) s =
    outside-merge_entries rule n es (merge_entry rule n e s) ∙ outside-merge_entry rule n e s

-- Removing identities, replacing the jar by an import and merging one, whatever keys and records the
-- import carries, leave the buckets of every other profile as they are.
pub import-outside :
    (ids : List Identity) (entries : List ImportEntry) (rule : JarConflictRule) (namespace : Text)
    (jars : Jars)
    → (outside namespace (jar_remove_identities ids namespace jars).0 ≡ outside namespace jars)
      × (outside namespace (jar_replace entries namespace jars) ≡ outside namespace jars)
      × (outside namespace (jar_merge entries rule namespace jars).0 ≡ outside namespace jars)
unfolding jar_remove_identities jar_replace jar_merge
import-outside ids entries rule n m = (
  outside-retain n _ (λ k c h. ground arith) m,
  outside-put_entries n entries (drop_profile n m) ∙ outside-drop_profile n m,
  outside-merge_entries rule n entries _,
)

length-merge_cookie :
    (rule : JarConflictRule) (c : Cookie) (l : List Cookie)
    → let (l', met) = merge_cookie rule c l in length l' ≡ length l + (if met then 0 else 1)
unfolding merge_cookie
length-merge_cookie rule c [] = refl
length-merge_cookie rule c (x ∷ xs) = ground (arith, length-merge_cookie rule c xs)

merge_cookie-keeps :
    (c : Cookie) (l : List Cookie)
    → (merge_cookie keep_existing c l).0
      ≡ l ++ (if (merge_cookie keep_existing c l).1 then [] else c ∷ [])
unfolding merge_cookie resolve
merge_cookie-keeps c [] = refl
merge_cookie-keeps c (x ∷ xs) = elim (Bool-cases (has_identity (identity_of c) x)) [
  | inl e ↦ rw e (simp append-nil)
  | inr e ↦ rw e (ap (λ t. x ∷ t) (merge_cookie-keeps c xs))
]

-- Merging with the rule that keeps what exists changes no cookie of the bucket and drops none: it only
-- adds cookies after them.
pub merge_bucket-keep_existing :
    (cs l : List Cookie) (n : Merged)
    → (added : List Cookie) × ((merge_bucket keep_existing cs (l, n)).0 ≡ l ++ added)
unfolding merge_bucket
merge_bucket-keep_existing [] l n = ([], simp append-nil)
merge_bucket-keep_existing (c ∷ cs) l n =
    let (l', met) = merge_cookie keep_existing c l in
    let new : List Cookie = if met then [] else c ∷ [] in
    let (added, e) = merge_bucket-keep_existing cs l' (
      if met
      then record n { conflicts = n.conflicts + 1 }
      else record n { cookies = n.cookies + 1 }) in
    (new ++ added, e ∙ rw (merge_cookie-keeps c l) (simp append_assoc))

-- A merge accounts for every record: each is a new cookie or a conflict, and the bucket grows by the new
-- ones only.
pub merge_bucket-counts :
    (rule : JarConflictRule) (cs l : List Cookie) (n : Merged)
    → let (l', n') = merge_bucket rule cs (l, n) in
      (n'.conflicts + n'.cookies ≡ n.conflicts + n.cookies + length cs)
      × (length l' + n.cookies ≡ length l + n'.cookies)
unfolding merge_bucket
merge_bucket-counts rule [] l n = (omega arith, refl)
merge_bucket-counts rule (c ∷ cs) l n = ground (
  arith,
  merge_bucket-counts rule cs (merge_cookie rule c l).0 (
      if (merge_cookie rule c l).1
      then record n { conflicts = n.conflicts + 1 }
      else record n { cookies = n.cookies + 1 }),
  length-merge_cookie rule c l,
)
