-- ===== src/Cookies/Jar/Limits.antt =====
-- The store operations of app/src/cookies.ts work inside one profile: what a sweep or a rewriting of
-- some buckets does to the buckets of the other profiles.
use zeolite.Prelude.{
  ℕ, zero, suc, ◌-◌, ◌≡◌, refl, ◌∙◌, inl, inr, Bool, true, false, not, List, [], ◌∷◌, arith,
  if◌then◌else◌, ltb, or_else, Bool-cases, filter, length, take, All, All-append, All-filter, ◌==◌,
  text_eq, list_beq_iff,
}
use zeolite.Prelude.Maps.{get, set}
use zeolite.Prelude.Sort.{All-sort}
use zeolite.Text.{Text}
use zeolite.Cookies.{Cookie}
use zeolite.Cookies.Jar.{
  Jars, Entry, retain, is_live, bucket_entries, profile_entries, group, collect, flat, doomed,
  is_among, evict, sweep_domains, sweep_total, drop_expired, sweep_jar_limits, max_per_domain,
  max_total, dead_entries,
}
use zeolite.Cookies.Profiles.{in_profile}

-- The buckets of the other profiles.
abbrev pub outside : Text → Jars → Jars
outside namespace m = filter (λ (k, l). not (in_profile k namespace)) m

length-filter_all :
    (p : Cookie → Bool)
    → ((c : Cookie) → p c ≡ true)
    → (l : List Cookie) → length (filter p l) ≡ length l
length-filter_all p h [] = refl
length-filter_all p h (c ∷ l) = ground (arith, h c, length-filter_all p h l)

-- A filter that keeps what is outside the profile.
pub outside-retain :
    (namespace : Text) (keep : Text → Cookie → Bool)
    → ((k : Text) (c : Cookie) → in_profile k namespace ≡ false → keep k c ≡ true)
    → (m : Jars) → outside namespace (retain keep m) ≡ outside namespace m
unfolding retain
outside-retain n keep h [] = refl
outside-retain n keep h ((k, l) ∷ m) = elim (Bool-cases (in_profile k n)) [
  | inl e ↦ ground (arith, outside-retain n keep h m)
  | inr e ↦ ground (arith, outside-retain n keep h m, length-filter_all (keep k) (λ c. h k c e) l)
]

abbrev pub IsInside : Text → Entry → Type 0
IsInside namespace (k, c) = in_profile k namespace ≡ true

abbrev pub AllInside : Text → List Entry → Type 0
AllInside namespace es = All (IsInside namespace) es

is_among-outside :
    (n k : Text) (c : Cookie) (es : List Entry)
    → AllInside n es
    → in_profile k n ≡ false
    → is_among k c es ≡ false
is_among-outside n k c [] a h = refl
is_among-outside n k c ((j, d) ∷ es) a h =
    ground (arith, a.0, list_beq_iff j k, is_among-outside n k c es a.1 h)

All-take : (P : Entry → Type 0) (i : ℕ) (es : List Entry) → All P es → All P (take i es)
All-take P zero es a = tt
All-take P (suc i) [] a = tt
All-take P (suc i) (e ∷ es) a = (a.0, All-take P i es a.1)

doomed-AllInside :
    (n : Text) (protect : Cookie → Bool) (es : List Entry) (i : ℕ)
    → AllInside n es
    → AllInside n (doomed protect es i)
unfolding doomed
doomed-AllInside n protect es i a =
    All-take (IsInside n) i _ (All-sort _ (IsInside n) _ (All-filter (IsInside n) _ es a))

outside-evict :
    (n : Text) (protect : Cookie → Bool) (es : List Entry) (i : ℕ) (m : Jars)
    → AllInside n es
    → outside n (evict protect es i m).0 ≡ outside n m
unfolding evict
outside-evict n protect es i m a =
    outside-retain n _
      (λ k c h.
        ground (
          arith,
          is_among-outside n k c (doomed protect es i) (doomed-AllInside n protect es i a) h,
        ))
      m

bucket_entries-AllInside :
    (n k : Text) → in_profile k n ≡ true → (l : List Cookie) → AllInside n (bucket_entries k l)
bucket_entries-AllInside n k h [] = tt
bucket_entries-AllInside n k h (c ∷ l) = (h, bucket_entries-AllInside n k h l)

profile_entries-AllInside : (n : Text) (now : ℕ) (m : Jars) → AllInside n (profile_entries n now m)
unfolding profile_entries
profile_entries-AllInside n now [] = tt
profile_entries-AllInside n now ((k, l) ∷ m) = elim (Bool-cases (in_profile k n)) [
  | inl e ↦ rw e (
      All-append (IsInside n) _ _ (bucket_entries-AllInside n k e _)
        (profile_entries-AllInside n now m))
  | inr e ↦ rw e (profile_entries-AllInside n now m)
]

-- The groups of `collect` hold entries of the profile.
abbrev pub GroupsInside : Text → List (Text × List Entry) → Type 0
GroupsInside namespace [] = Unit
GroupsInside namespace ((d, es) ∷ gs) = AllInside namespace es × GroupsInside namespace gs

get-GroupsInside :
    (n d : Text) (gs : List (Text × List Entry))
    → GroupsInside n gs
    → AllInside n (or_else (get d gs) [])
unfolding get
get-GroupsInside n d [] a = tt
get-GroupsInside n d ((j, es) ∷ gs) a = elim (Bool-cases (j == d)) [
  | inl e ↦ rw (e, get) a.0
  | inr e ↦ rw (e, get) (get-GroupsInside n d gs a.1)
]

set-GroupsInside :
    (n d : Text) (es : List Entry) (gs : List (Text × List Entry))
    → AllInside n es
    → GroupsInside n gs
    → GroupsInside n (set d es gs)
unfolding set
set-GroupsInside n d es [] h a = (h, tt)
set-GroupsInside n d es ((j, fs) ∷ gs) h a = elim (Bool-cases (j == d)) [
  | inl e ↦ rw (e, set) (h, a.1)
  | inr e ↦ rw (e, set) (a.0, set-GroupsInside n d es gs h a.1)
]

group-GroupsInside :
    (n : Text) (es : List Entry) (gs : List (Text × List Entry))
    → AllInside n es
    → GroupsInside n gs
    → GroupsInside n (group es gs)
unfolding group
group-GroupsInside n [] gs h a = a
group-GroupsInside n ((k, c) ∷ es) gs h a = group-GroupsInside n es _ h.1 (
    set-GroupsInside n c.domain _ gs
      (All-append (IsInside n) _ _ (get-GroupsInside n c.domain gs a) (h.0, tt)) a)

collect-GroupsInside : (n : Text) (now : ℕ) (m : Jars) → GroupsInside n (collect n now m)
unfolding collect
collect-GroupsInside n now m = group-GroupsInside n _ [] (profile_entries-AllInside n now m) tt

flat-AllInside :
    (n : Text) (gs : List (Text × List Entry)) → GroupsInside n gs → AllInside n (flat gs)
flat-AllInside n [] a = tt
flat-AllInside n ((d, es) ∷ gs) a = All-append (IsInside n) _ _ a.0 (flat-AllInside n gs a.1)

outside-sweep_domains :
    (n : Text) (protect : Cookie → Bool) (gs : List (Text × List Entry)) (m : Jars)
    (gone : List Cookie)
    → GroupsInside n gs
    → outside n (sweep_domains protect gs (m, gone)).0 ≡ outside n m
unfolding sweep_domains
outside-sweep_domains n protect [] m gone a = refl
outside-sweep_domains n protect ((d, es) ∷ gs) m gone a =
    elim (Bool-cases (ltb max_per_domain (length es))) [
      | inl e ↦
          rw (e, sweep_domains)
            (outside-sweep_domains n protect gs _ _ a.1
              ∙ outside-evict n protect es (length es - max_per_domain) m a.0)
      | inr e ↦ rw (e, sweep_domains) (outside-sweep_domains n protect gs m gone a.1)
    ]

outside-sweep_total :
    (n : Text) (protect : Cookie → Bool) (now : ℕ) (s : Jars × List Cookie)
    → outside n (sweep_total protect n now s).0 ≡ outside n s.0
unfolding sweep_total
outside-sweep_total n protect now (m, gone) =
    let all = flat (collect n now m) in
    elim (Bool-cases (ltb max_total (length all))) [
      | inl e ↦
          rw (e, sweep_total)
            (outside-evict n protect all (length all - max_total) m
              (flat-AllInside n _ (collect-GroupsInside n now m)))
      | inr e ↦ rw (e, sweep_total) refl
    ]

-- The sweep of one profile leaves the buckets of every other profile as they are, whatever is
-- expired or over a limit there.
pub sweep_jar_limits-outside :
    (namespace : Text) (protect : Cookie → Bool) (now : ℕ) (m : Jars)
    → outside namespace (sweep_jar_limits namespace protect now m).0 ≡ outside namespace m
unfolding sweep_jar_limits drop_expired
sweep_jar_limits-outside n protect now m =
    let live = drop_expired n now m in
    let groups = collect n now live in
    outside-sweep_total n protect now (sweep_domains protect groups (live, dead_entries n now m))
    ∙ outside-sweep_domains n protect groups live (dead_entries n now m)
        (collect-GroupsInside n now live)
    ∙ outside-retain n (λ k c. if in_profile k n then is_live now c else true)
        (λ k c h. ground arith) m
