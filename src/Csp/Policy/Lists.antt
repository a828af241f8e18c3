-- ===== src/Csp/Policy/Lists.antt =====
-- Which directives of a policy have a list in the plan of `planEngineCsp`, app/src/csp-enforce.ts.
use zeolite.Prelude.{
  suc, ◌≡◌, ◌⊎◌, inl, inr, refl, subst, All, true, false, Bool, ◌&&◌, ◌||◌, not, none, some, List,
  [], ◌∷◌, leb, is_some, ◌==◌, ==_iff, ==_refl, list_beq, text_eq, length, In, List-cases,
  Option-cases, Bool-cases, arith,
}
use zeolite.Prelude.Maps.{get, get-set}
use zeolite.Text.{Text, to_lower, split}
use zeolite.Csp.{CspEnginePlan, empty_csp_plan, default_name, dest_directive}
use zeolite.Csp.Policy.{
  words, directive_name, one_of, parse_source_list, add_list, plan_parts, plan_text, unreadable,
  max_directives, max_sources, fetch_directives,
}

-- Each part under the name has sources that can be verified, and not too many of them.
unfoldable pub verifiable : Text → List Text → Bool
verifiable name [] = true
verifiable name (part ∷ parts) =
    let rest = verifiable name parts in
    elim (words part) [
      | [] ↦ rest
      | word ∷ tokens ↦
          (not (to_lower word == name)
            || (leb (length tokens) max_sources && is_some (parse_source_list tokens)))
          && rest
    ]

-- No part under the name has sources.
unfoldable pub Unlisted : Text → List Text → Type 0
Unlisted name parts =
    (part word : Text) (tokens : List Text)
    → In part parts
    → words part ≡ word ∷ tokens
    → to_lower word ≡ name
    → tokens ≡ []

-- The plan has a list under the name.
abbrev Holds : Text → CspEnginePlan → Type 0
Holds name plan = ¬ (get name plan.sources ≡ none)

add_list-Holds :
    (name other : Text) (tokens : List Text) (plan : CspEnginePlan)
    → Holds name plan
    → Holds name (add_list other tokens plan)
unfolding add_list
add_list-Holds name other tokens plan h e = elim (Option-cases (parse_source_list tokens)) [
  | inl n ↦ h (ground (arith, e, n))
  | inr (list, s) ↦ elim (Bool-cases (other == name)) [
    | inl same ↦ h (ground (arith, e, s, same, get-set other name list plan.sources))
    | inr differs ↦ h (ground (arith, e, s, differs, get-set other name list plan.sources))
  ]
]

add_list-own :
    (name : Text) (tokens : List Text) (plan : CspEnginePlan)
    → one_of fetch_directives name ≡ true
    → (name == default_name) ≡ false
    → leb (length tokens) 0 ≡ false
    → leb (length tokens) max_sources ≡ true
    → is_some (parse_source_list tokens) ≡ true
    → Holds name (add_list name tokens plan)
unfolding add_list
add_list-own name tokens plan f d full short v e = elim (Option-cases (parse_source_list tokens)) [
  | inl n ↦ ground (arith, v, n)
  | inr (list, s) ↦
      ground (arith, e, s, f, d, full, short, get-set name name list plan.sources, ==_refl name)
]

plan_parts-Holds :
    (name : Text) (empty : CspEnginePlan) (parts seen : List Text) (plan : CspEnginePlan)
    → Holds name plan
    → (plan_parts empty parts seen plan ≡ empty) ⊎ Holds name (plan_parts empty parts seen plan)
unfolding plan_parts
plan_parts-Holds name empty [] seen plan h = inr h
plan_parts-Holds name empty (part ∷ parts) seen plan h = elim (List-cases (words part)) [
  | inl e ↦ rw (e, plan_parts) (plan_parts-Holds name empty parts seen plan h)
  | inr (word, tokens, e) ↦
      elim (Bool-cases (directive_name (to_lower word) && not (one_of seen (to_lower word)))) [
        | inr bad ↦ rw (e, bad, plan_parts) (inl refl)
        | inl good ↦
            rw (e, good, plan_parts)
              (plan_parts-Holds name empty parts (to_lower word ∷ seen) _
                (add_list-Holds name (to_lower word) tokens plan h))
      ]
]

-- A part under the name of a fetch directive that has sources gives the plan a list under that name,
-- unless the whole policy is refused.
plan_parts-listed :
    (name : Text) (empty : CspEnginePlan) (parts seen : List Text) (plan : CspEnginePlan)
    (part word : Text) (tokens : List Text)
    → one_of fetch_directives name ≡ true
    → (name == default_name) ≡ false
    → verifiable name parts ≡ true
    → In part parts
    → words part ≡ word ∷ tokens
    → to_lower word ≡ name
    → leb (length tokens) 0 ≡ false
    → (plan_parts empty parts seen plan ≡ empty) ⊎ Holds name (plan_parts empty parts seen plan)
unfolding plan_parts verifiable
plan_parts-listed name empty [] seen plan part word tokens f d v i w n full = absurd i
plan_parts-listed name empty (q ∷ parts) seen plan part word tokens f d v (inr i) w n full =
    elim (List-cases (words q)) [
      | inl e ↦
          rw (e, plan_parts)
            (plan_parts-listed name empty parts seen plan part word tokens f d
              (rw (e, verifiable) at v) i w n full)
      | inr (head, rest, e) ↦
          elim (Bool-cases (directive_name (to_lower head) && not (one_of seen (to_lower head)))) [
            | inr bad ↦ rw (e, bad, plan_parts) (inl refl)
            | inl good ↦
                rw (e, good, plan_parts)
                  (plan_parts-listed name empty parts (to_lower head ∷ seen) _ part word tokens f d
                    (ground (arith, rw (e, verifiable) at v)) i w n full)
          ]
    ]
plan_parts-listed name empty (q ∷ parts) seen plan part word tokens f d v (inl i) w n full =
    let e : words q ≡ word ∷ tokens = ground (arith, i, w) in
    let same : (to_lower word == name) ≡ true = (==_iff (to_lower word) name).1 n in
    let sources : (leb (length tokens) max_sources ≡ true)
        × (is_some (parse_source_list tokens) ≡ true) =
      ground (arith, same, rw (e, verifiable) at v) in
    elim (Bool-cases (directive_name (to_lower word) && not (one_of seen (to_lower word)))) [
      | inr bad ↦ rw (e, bad, plan_parts) (inl refl)
      | inl good ↦
          rw (e, good, plan_parts)
            (plan_parts-Holds name empty parts (to_lower word ∷ seen) _
              (rw n (add_list-own name tokens plan f d full sources.0 sources.1)))
    ]

-- Where a plan has a default list and none under the name of a fetch directive, no part under that name
-- has sources.
pub plan_text-Unlisted :
    (name o p raw : Text)
    → one_of fetch_directives name ≡ true
    → (name == default_name) ≡ false
    → verifiable name (split b';' raw) ≡ true
    → get name (plan_text (empty_csp_plan o p) raw).sources ≡ none
    → is_some (plan_text (empty_csp_plan o p) raw).default_src ≡ true
    → Unlisted name (split b';' raw)
unfolding plan_text Unlisted
plan_text-Unlisted name o p raw f d v missing defaulted part word [] i w n = refl
plan_text-Unlisted name o p raw f d v missing defaulted part word (t ∷ tokens) i w n =
    let empty = empty_csp_plan o p in
    elim (Bool-cases (unreadable raw || not (leb (length (split b';' raw)) (suc max_directives)))) [
      | inl refused ↦ absurd (ground (arith, refused, defaulted))
      | inr read ↦
          elim (plan_parts-listed name empty (split b';' raw) [] empty part word (t ∷ tokens) f d v
            i w n (ground arith)) [
              | inl bare ↦ absurd (ground (arith, read, bare, defaulted))
              | inr holds ↦ absurd (holds (ground (arith, read, missing)))
            ]
    ]

IsFetch : Text → Type 0
IsFetch name = (one_of fetch_directives name ≡ true) × ((name == default_name) ≡ false)

get-IsFetch :
    (names : List (Text × Text)) (dest name : Text)
    → All (λ entry. IsFetch entry.1) names
    → get dest names ≡ some name
    → IsFetch name
unfolding get IsFetch
get-IsFetch [] dest name v e = absurd (ground (arith, e))
get-IsFetch ((key, n) ∷ names) dest name (h, v) e = elim (Bool-cases (key == dest)) [
  | inl same ↦ let found : n ≡ name = ground (arith, e, same) in subst (λ m. IsFetch m) found h
  | inr differs ↦ get-IsFetch names dest name v (ground (arith, e, differs))
]

IsFetch-dest_directive : All (λ entry. IsFetch entry.1) dest_directive
unfolding IsFetch list_beq
IsFetch-dest_directive = (
  (refl, refl),
  (
    (refl, refl),
    (
      (refl, refl),
      (
        (refl, refl),
        ((refl, refl), ((refl, refl), ((refl, refl), ((refl, refl), ((refl, refl), tt))))),
      ),
    ),
  ),
)

-- A destination's directive is one of the fetch directives, and not the default one.
pub dest_directive-fetch :
    (dest directive : Text)
    → get dest dest_directive ≡ some directive
    → (one_of fetch_directives directive ≡ true) × ((directive == default_name) ≡ false)
unfolding IsFetch
dest_directive-fetch dest directive e =
    get-IsFetch dest_directive dest directive IsFetch-dest_directive e
