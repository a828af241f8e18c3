-- ===== src/Csp/Policy/Refused.antt =====
-- A policy that cannot be read as a whole enforces nothing.
use zeolite.Prelude.{
  suc, ◌≡◌, ◌⊎◌, inl, inr, refl, true, false, ◌&&◌, not, Option, none, some, List, [], ◌∷◌, leb,
  text_eq, length, List-cases, Option-cases, Bool-cases, arith,
}
use zeolite.Text.{Text, txt, to_lower, split}
use zeolite.Url.{Url}
use zeolite.Csp.{CspEnginePlan, empty_csp_plan, CspRegistry, is_web, csp_set_client, csp_gate}
use zeolite.Csp.Policy.{
  words, directive_name, one_of, add_list, plan_parts, plan_text, plan_engine_csp, unreadable,
  max_directives,
}
use zeolite.Csp.Gate.{csp_gate-Blocks}
use zeolite.Csp.Policy.Reads.{empty_csp_plan-Blocks}

-- The name of a part, in lower case, if it has words.
unfoldable pub name_of : Text → Option Text
name_of part = elim (words part) [ [] ↦ none | word ∷ tokens ↦ some (to_lower word) ]

-- A part whose name is not one, or has been seen.
unfoldable pub IsBad : List Text → List Text → Type 0
IsBad seen [] = ⊥
IsBad seen (part ∷ parts) = elim (name_of part) [
  | none ↦ IsBad seen parts
  | some name ↦
      (directive_name name ≡ false) ⊎ ((one_of seen name ≡ true) ⊎ IsBad (name ∷ seen) parts)
]

plan_parts-IsBad :
    (empty : CspEnginePlan) (parts seen : List Text) (plan : CspEnginePlan)
    → IsBad seen parts
    → plan_parts empty parts seen plan ≡ empty
unfolding plan_parts IsBad name_of
plan_parts-IsBad empty [] seen plan b = absurd b
plan_parts-IsBad empty (part ∷ parts) seen plan b = elim (List-cases (words part)) [
  | inl e ↦
      rw (e, plan_parts) (plan_parts-IsBad empty parts seen plan (rw (e, IsBad, name_of) at b))
  | inr (word, tokens, e) ↦
      elim (Bool-cases (directive_name (to_lower word) && not (one_of seen (to_lower word)))) [
        | inr bad ↦ rw (e, bad, plan_parts) refl
        | inl good ↦
            let later : IsBad (to_lower word ∷ seen) parts =
              ground (arith, good, rw (e, IsBad, name_of) at b) in
            rw (e, good, plan_parts)
              (plan_parts-IsBad empty parts (to_lower word ∷ seen)
                (add_list (to_lower word) tokens plan) later)
      ]
]

-- A policy that is blank, too long, of too many directives or with a control character or comma, or one
-- in which some directive has no proper name or repeats a name.
unfoldable pub IsRefused : Text → Type 0
IsRefused raw =
    (unreadable raw ≡ true)
    ⊎ ((leb (length (split b';' raw)) (suc max_directives) ≡ false) ⊎ IsBad [] (split b';' raw))

plan_text-IsRefused :
    (empty : CspEnginePlan) (raw : Text) → IsRefused raw → plan_text empty raw ≡ empty
unfolding plan_text IsRefused
plan_text-IsRefused empty raw (inl u) = ground (arith, u)
plan_text-IsRefused empty raw (inr (inl m)) = ground (arith, m)
plan_text-IsRefused empty raw (inr (inr b)) =
    ground (arith, plan_parts-IsBad empty (split b';' raw) [] empty b)

plan_engine_csp-empty :
    (parse_url : Text → Option Url) (raw doc_url : Text)
    → IsRefused raw
    → (o : Text) × (p : Text) × (plan_engine_csp parse_url raw doc_url ≡ empty_csp_plan o p)
unfolding plan_engine_csp
plan_engine_csp-empty parse_url raw doc_url refused = elim (Option-cases (parse_url doc_url)) [
  | inl n ↦ ([], txt "https:", ground (arith, n))
  | inr (page, p) ↦ elim (Bool-cases (is_web page)) [
    | inr w ↦ ([], txt "https:", ground (arith, p, w))
    | inl w ↦ (
      page.origin,
      page.protocol,
      ground
          (arith, p, w, plan_text-IsRefused (empty_csp_plan page.origin page.protocol) raw refused),
    )
  ]
]

-- A policy that is refused as a whole has no request of its client blocked, whichever directives stand
-- before the mistake.
pub plan_engine_csp-IsRefused :
    (parse_url : Text → Option Url) (reg : CspRegistry) (id dest abs_url raw doc_url : Text)
    → IsRefused raw
    → (csp_gate parse_url
        (csp_set_client reg id (plan_engine_csp parse_url raw doc_url))
        (some id)
        dest
        abs_url).blocked
      ≡ false
plan_engine_csp-IsRefused parse_url reg id dest abs_url raw doc_url refused =
    let (o, p, e) = plan_engine_csp-empty parse_url raw doc_url refused in
    elim (Bool-cases (
      (csp_gate parse_url (csp_set_client reg id (plan_engine_csp parse_url raw doc_url)) (some id)
        dest abs_url).blocked)) [
          | inr free ↦ free
          | inl b ↦
              let blocks = (csp_gate-Blocks parse_url _ (some id) dest abs_url).0 b in
              absurd (empty_csp_plan-Blocks parse_url reg id dest abs_url o p (rw e at blocks))
        ]
