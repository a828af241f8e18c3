-- ===== src/Cookies/Admit/Isolated.antt =====
-- A Set-Cookie header acts on one profile of the jar of app/src/cookies.ts: what an admission does to
-- the buckets of the other profiles.
use zeolite.Prelude.{
  ℕ, ◌+◌, ◌≡◌, refl, ◌∙◌, inl, inr, Bool, true, ◌&&◌, Option, none, some, List, [], ◌∷◌, ◌++◌,
  arith, eqb, ltb, Bool-cases, Option-cases, filter, All, All-append, ◌==◌, text_eq, list_beq_iff,
}
use zeolite.Prelude.Maps.{set}
use zeolite.Prelude.Result.{Result-cases}
use zeolite.Text.{Text, starts_with, includes_unit}
use zeolite.Url.{Url}
use zeolite.Cookies.{Cookie}
use zeolite.Cookies.Jar.{Jars}
use zeolite.Cookies.Jar.Limits.{outside, outside-retain, sweep_jar_limits-outside}
use zeolite.Cookies.Origin.{origin_jar_id, canonical, hex_bytes-plain}
use zeolite.Cookies.Profiles.{sep, profile_default, jar_key, in_profile}
use zeolite.Cookies.Request.{Request, check}
use zeolite.Cookies.Admit.{
  Store, retires, same_cookie, delete_copies, in_bucket, copies, earliest, write_at, place,
  is_http_only, cookie_of, fresh_cookie, store_cookie, admit_request, admit_cookie,
}

-- Keys of a profile.
pub starts_with-append : (a b : Text) (c : ℕ) → starts_with (a ++ c ∷ b) (a ++ c ∷ []) ≡ true
unfolding starts_with
starts_with-append [] b c = ground arith
starts_with-append (x ∷ a) b c = ground (arith, starts_with-append a b c)

module _ (parse_url : Text → Option Url) where
  -- The bucket of an origin in a profile belongs to that profile.
  pub in_profile-jar_key :
      (origin namespace : Text)
      → in_profile (jar_key (origin_jar_id parse_url origin) namespace) namespace ≡ true
  unfolding jar_key in_profile origin_jar_id includes_unit
  in_profile-jar_key origin namespace = elim (Bool-cases (namespace == profile_default)) [
    | inl e ↦ ground (arith, hex_bytes-plain (canonical parse_url origin))
    | inr e ↦ rw e (starts_with-append namespace _ sep)
  ]

-- Rewritings of buckets of the profile.
pub outside-set :
    (n k : Text) (l : List Cookie) (m : Jars)
    → in_profile k n ≡ true
    → outside n (set k l m) ≡ outside n m
unfolding set
outside-set n k l [] h = ground arith
outside-set n k l ((j, w) ∷ m) h = ground (arith, list_beq_iff j k, outside-set n k l m h)

outside-write_at :
    (n k : Text) (i : ℕ) (c : Cookie) (m : Jars)
    → in_profile k n ≡ true
    → outside n (write_at k i c m) ≡ outside n m
unfolding write_at
outside-write_at n k i c [] h = refl
outside-write_at n k i c ((j, w) ∷ m) h =
    ground (arith, list_beq_iff j k, outside-write_at n k i c m h)

-- The copies of a cookie that the admission acts on are in the profile.
abbrev IsInside : Text → Text × ℕ × Cookie → Type 0
IsInside n (k, i, c) = in_profile k n ≡ true

in_bucket-IsInside :
    (r : Request) (n k : Text) (i : ℕ) (l : List Cookie)
    → in_profile k n ≡ true
    → All (IsInside n) (in_bucket r k i l)
in_bucket-IsInside r n k i [] h = tt
in_bucket-IsInside r n k i (c ∷ l) h = elim (Bool-cases (same_cookie r c)) [
  | inl e ↦ rw e (h, in_bucket-IsInside r n k (i + 1) l h)
  | inr e ↦ rw e (in_bucket-IsInside r n k (i + 1) l h)
]

copies-IsInside : (r : Request) (n : Text) (m : Jars) → All (IsInside n) (copies r n m)
unfolding copies
copies-IsInside r n [] = tt
copies-IsInside r n ((k, l) ∷ m) = elim (Bool-cases (in_profile k n)) [
  | inl e ↦
      rw e (All-append (IsInside n) _ _ (in_bucket-IsInside r n k 0 l e) (copies-IsInside r n m))
  | inr e ↦ rw e (copies-IsInside r n m)
]

abbrev SomeInside : Text → Option (Text × ℕ × Cookie) → Type 0
SomeInside n none = Unit
SomeInside n (some x) = IsInside n x

earliest-inside :
    (n : Text) (o : Option (Text × ℕ × Cookie)) (xs : List (Text × ℕ × Cookie))
    → SomeInside n o
    → All (IsInside n) xs
    → SomeInside n (earliest o xs)
earliest-inside n o [] h a = h
earliest-inside n none (x ∷ xs) h a = earliest-inside n (some x) xs a.0 a.1
earliest-inside n (some b) (x ∷ xs) h a = elim (Bool-cases (ltb x.2.created b.2.created)) [
  | inl e ↦ rw e (earliest-inside n (some x) xs a.0 a.1)
  | inr e ↦ rw e (earliest-inside n (some b) xs h a.1)
]

module _ (parse_url : Text → Option Url) where
  outside-place :
      (r : Request) (n : Text) (o : Option (Text × ℕ × Cookie)) (c : Cookie) (m : Jars)
      → SomeInside n o
      → outside n (place parse_url r n o c m) ≡ outside n m
  unfolding place
  outside-place r n (some (k, i, x)) c m h =
      outside-write_at n k i c _ h ∙ outside-retain n _ (λ j x q. ground arith) m
  outside-place r n none c m h = outside-set n _ _ m (in_profile-jar_key parse_url r.url.origin n)

  outside-store_cookie :
      (from_script : Bool) (now later : ℕ) (r : Request) (n : Text) (s : Store)
      → outside n (store_cookie parse_url from_script now later r n s).0.jars ≡ outside n s.jars
  unfolding store_cookie
  outside-store_cookie from_script now later r n s =
      let existing = earliest none (copies r n s.jars) in
      let fresh = fresh_cookie now r (cookie_of existing) s.next_ref in
      let inside = earliest-inside n none _ tt (copies-IsInside r n s.jars) in
      elim (Bool-cases (from_script && is_http_only existing)) [
        | inl e ↦ rw (e, store_cookie) refl
        | inr e ↦
            rw (e, store_cookie)
              (sweep_jar_limits-outside n (λ c. eqb c.ref fresh.ref) later
                  (place parse_url r n existing fresh s.jars)
                ∙ outside-place r n existing fresh s.jars inside)
      ]

outside-delete_copies :
    (from_script : Bool) (r : Request) (n : Text) (s : Store)
    → outside n (delete_copies from_script r n s).0.jars ≡ outside n s.jars
unfolding delete_copies
outside-delete_copies f r n s =
    elim (Option-cases (earliest none (filter (λ (k, i, c). retires f r c) (copies r n s.jars)))) [
      | inl e ↦ rw (e, delete_copies) refl
      | inr (x, e) ↦ rw (e, delete_copies) (outside-retain n _ (λ k c h. ground arith) s.jars)
    ]

module _ (parse_url : Text → Option Url) (get_public_suffix : Text → Option Text) where
  -- Whatever a Set-Cookie header asks for, stored, deleted or refused, the buckets of every other
  -- profile hold after its admission what they held before.
  pub admit_cookie-outside :
      (response_url header : Text) (from_script : Bool) (namespace : Text) (now later : ℕ)
      (s : Store)
      → outside namespace
          (admit_cookie parse_url get_public_suffix response_url header from_script namespace now
            later s).0.jars
        ≡ outside namespace s.jars
  unfolding admit_cookie admit_request
  admit_cookie-outside response_url header f n now later s =
      elim (Result-cases (check parse_url get_public_suffix response_url header)) [
        | inr (x, e) ↦ rw (e, admit_cookie) refl
        | inl (r, e) ↦
            rw (e, admit_cookie)
              (ground (
                arith,
                outside-delete_copies f r n s,
                outside-store_cookie parse_url f now later r n s,
              ))
      ]
