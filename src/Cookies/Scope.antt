-- ===== src/Cookies/Scope.antt =====
-- Which requests a cookie's path covers, in app/src/cookies.ts: `pathMatch` and `defaultPath`.
use zeolite.Prelude.{
  ℕ, ◌≡◌, refl, ◌↔◌, ◌⊎◌, inl, inr, true, ◌||◌, some, [], ◌∷◌, ◌++◌, arith, leb, length, take,
  get_elem?, Bool-cases, Option-cases, text_eq, ◌==◌, list_beq_iff,
}
use zeolite.Text.{Text, starts_with, ends_with, last_index_of}
use zeolite.Cookies.{slash, is_slash, path_match, default_path}

pub starts_with_sound : (s p : Text) → starts_with s p ≡ true → (rest : Text) × (s ≡ p ++ rest)
unfolding starts_with
starts_with_sound s [] h = (s, refl)
starts_with_sound [] (c ∷ p) h = ground arith
starts_with_sound (d ∷ s) (c ∷ p) h =
    let (rest, e) = starts_with_sound s p (ground arith) in (rest, ground arith)

pub starts_with-append : (p rest : Text) → starts_with (p ++ rest) p ≡ true
unfolding starts_with
starts_with-append [] rest = ground arith
starts_with-append (c ∷ p) rest = ground (arith, starts_with-append p rest)

get_elem?-append : (p rest : Text) → get_elem? (p ++ rest) (length p) ≡ get_elem? rest 0
get_elem?-append [] rest = refl
get_elem?-append (c ∷ p) rest = get_elem?-append p rest

-- The paths below a cookie's path, at a segment boundary: what follows starts with a slash, or the
-- cookie's path ends in one.
abbrev pub IsBelow : Text → Text → Type 0
IsBelow cookie req =
    (rest : Text) × (req ≡ cookie ++ rest)
    × ((ends_with cookie (slash ∷ []) ≡ true) ⊎ ((tail : Text) × (rest ≡ slash ∷ tail)))

below :
    (cookie req : Text)
    → starts_with req cookie ≡ true
    → (ends_with cookie (slash ∷ []) || is_slash (get_elem? req (length cookie))) ≡ true
    → IsBelow cookie req
below cookie req s b =
    let (rest, e) = starts_with_sound req cookie s in
    (
      rest,
      e,
      elim (Bool-cases (ends_with cookie (slash ∷ []))) [
        | inl q ↦ inl q
        | inr q ↦ inr (slashed rest (rw (q, e, get_elem?-append cookie rest) at b))
      ],
    )
  where
    slashed :
        (rest : Text) → is_slash (get_elem? rest 0) ≡ true → (tail : Text) × (rest ≡ slash ∷ tail)
    slashed [] h = ground arith
    slashed (c ∷ t) h = (t, ground arith)

-- A cookie is sent for exactly its own path and the paths below it, and for every path when its
-- own is the root.
pub path_match_iff :
    (req cookie : Text)
    → (path_match req cookie ≡ true)
      ↔ ((cookie ≡ slash ∷ []) ⊎ ((req ≡ cookie) ⊎ IsBelow cookie req))
unfolding path_match
path_match_iff req cookie = (
  λ h. elim (Bool-cases (cookie == slash ∷ [] || req == cookie)) [
    | inl e ↦ ground (arith, list_beq_iff cookie (slash ∷ []), list_beq_iff req cookie)
    | inr e ↦ inr (inr (below cookie req (ground arith) (ground arith)))
  ],
  λ h. elim h [
    | inl e ↦ ground (arith, list_beq_iff cookie (slash ∷ []))
    | inr (inl e) ↦ ground (arith, list_beq_iff req cookie)
    | inr (inr (rest, e, inl q)) ↦ ground (arith, starts_with-append cookie rest)
    | inr (inr (rest, e, inr (tail, q))) ↦
        ground (arith, starts_with-append cookie rest, get_elem?-append cookie rest)
  ],
)

last_index_of-split :
    (p : Text) (i : ℕ)
    → last_index_of slash p ≡ some i
    → (tail : Text) × (p ≡ take i p ++ slash ∷ tail)
unfolding last_index_of
last_index_of-split [] i h = ground arith
last_index_of-split (c ∷ p) i h = elim (Option-cases (last_index_of slash p)) [
  | inl e ↦ (p, ground arith)
  | inr (j, e) ↦ let (tail, q) = last_index_of-split p j e in (tail, ground arith)
]

-- A cookie that is set with no path is sent for the address that set it.
pub path_match-default_path : (p : Text) → path_match p (default_path p) ≡ true
unfolding default_path
path_match-default_path p = elim (Bool-cases (starts_with p (slash ∷ []))) [
  | inr e ↦ (path_match_iff p (default_path p)).1 (inl (ground arith))
  | inl e ↦ elim (Option-cases (last_index_of slash p)) [
    | inl n ↦ (path_match_iff p (default_path p)).1 (inl (ground arith))
    | inr (i, n) ↦ elim (Bool-cases (leb i 0)) [
      | inl z ↦ (path_match_iff p (default_path p)).1 (inl (ground arith))
      | inr z ↦
          let (tail, q) = last_index_of-split p i n in
          (path_match_iff p (default_path p)).1
            (inr (inr (slash ∷ tail, ground arith, inr (tail, refl))))
    ]
  ]
]
