-- ===== src/Csp/Translation/Denies.antt =====
-- A policy that is translated denies what the upstream policy denies, and all of it.
use zeolite.Prelude.{
  ◌≡◌, ◌⊎◌, inl, inr, refl, list_beq, ap, ◌∙◌, Bool, true, false, ◌||◌, not, none, some, List, [],
  ◌∷◌, ◌==◌, ==_iff, text_eq, map, List-cases, Option-cases, Bool-cases, arith,
}
use zeolite.Prelude.Result.{ok, Result-cases}
use zeolite.Prelude.Maps.{get, get-set, get-delete}
use zeolite.Text.{Text, txt, to_lower, split}
use zeolite.Codec.Token.{Utf8}
use zeolite.Csp.{join_by}
use zeolite.Csp.Policy.{words, one_of}
use zeolite.Csp.Translation.{
  CspUnsupportedReason, CspTranslationPlan, candidate, unsupported, deny_only, none_source,
  only_none, fault, emitted_names, denial, candidate_of, plan_csp_translation, Headers, csp_header,
  report_header, marker_header, is_html, apply_plan, apply_experimental_csp,
}

-- A part is blank, or it is the next name with the one source `'none'`.
unfoldable pub Denies : List Text → List Text → Type 0
Denies [] names = names ≡ []
Denies (part ∷ parts) names =
    ((words part ≡ []) × Denies parts names)
    ⊎ ((word : Text) × (token : Text) × (rest : List Text) × (words part ≡ word ∷ token ∷ [])
        × (to_lower token ≡ none_source)
        × (one_of deny_only (to_lower word) ≡ true)
        × (names ≡ to_lower word ∷ rest)
        × Denies parts rest)

only_none_shape :
    (tokens : List Text)
    → only_none tokens ≡ true
    → (t : Text) × (tokens ≡ t ∷ []) × (to_lower t ≡ none_source)
unfolding only_none
only_none_shape [] h = absurd (ground (arith, h))
only_none_shape (t ∷ []) h = (t, refl, (==_iff (to_lower t) none_source).0 h)
only_none_shape (t ∷ u ∷ tokens) h = absurd (ground (arith, h))

faultless :
    (seen : List Text) (name : Text) (tokens : List Text)
    → fault seen name tokens ≡ none
    → (one_of deny_only name ≡ true) × (only_none tokens ≡ true)
unfolding fault
faultless seen name tokens h = ground (arith, h)

emitted_names-Denies :
    (parts seen names : List Text) → emitted_names parts seen ≡ ok names → Denies parts names
unfolding emitted_names Denies
emitted_names-Denies [] seen names h = ground (arith, h)
emitted_names-Denies (part ∷ parts) seen names h = elim (List-cases (words part)) [
  | inl e ↦ inl (e, emitted_names-Denies parts seen names (rw (e, emitted_names) at h))
  | inr (word, tokens, e) ↦ elim (Option-cases (fault seen (to_lower word) tokens)) [
    | inr (reason, f) ↦ absurd (ground (arith, rw (e, f, emitted_names) at h))
    | inl f ↦ elim (Result-cases (emitted_names parts (to_lower word ∷ seen))) [
      | inr (reason, r) ↦ absurd (ground (arith, rw (e, f, r, emitted_names) at h))
      | inl (rest, r) ↦
          let (denied, only) = faultless seen (to_lower word) tokens f in
          let (token, shape, is_none) = only_none_shape tokens only in
          inr (
            word,
            token,
            rest,
            e ∙ ap (λ ts. word ∷ ts) shape,
            is_none,
            denied,
            ground (arith, rw (e, f, r, emitted_names) at h),
            emitted_names-Denies parts (to_lower word ∷ seen) rest r,
          )
    ]
  ]
]

candidate-Denies :
    (utf8 : Utf8) (raw policy : Text) (names : List Text) (only_report : Bool)
    → plan_csp_translation utf8 raw only_report ≡ candidate policy names
    → Denies (split b';' raw) names × (policy ≡ join_by (txt "; ") (map denial names))
unfolding plan_csp_translation candidate_of
candidate-Denies utf8 raw policy names only_report h =
    let parts = split b';' raw in
    elim (Result-cases (emitted_names parts [])) [
      | inr (reason, r) ↦ absurd (ground (arith, h, r))
      | inl (found, r) ↦ elim (List-cases found) [
        | inl none_found ↦ absurd (ground (arith, h, r ∙ ap ok none_found))
        | inr (n, rest, e) ↦
            let read : emitted_names parts [] ≡ ok (n ∷ rest) = r ∙ ap ok e in
            let same : names ≡ n ∷ rest = ground (arith, h, read) in
            (
              rw same (emitted_names-Denies parts [] (n ∷ rest) read),
              rw same (ground (arith, h, read)),
            )
      ]
    ]

-- The policy that the document is given denies, directive for directive, what the upstream policy
-- denies, and reports nothing.
unfoldable pub Enforced : Headers → Headers → Text → Bool → Type 0
Enforced up after content_type is_document =
    (raw : Text) × (names : List Text) × (get csp_header up ≡ some raw)
    × (is_document ≡ true)
    × (is_html content_type ≡ true)
    × Denies (split b';' raw) names
    × (get csp_header after ≡ some (join_by (txt "; ") (map denial names)))
    × (get report_header after ≡ none)

apply_plan-candidate :
    (policy : Text) (names : List Text) (down : Headers)
    → (get csp_header (apply_plan (candidate policy names) down).1 ≡ some policy)
      × (get report_header (apply_plan (candidate policy names) down).1 ≡ none)
unfolding apply_plan list_beq
apply_plan-candidate policy names down = (
  get-delete report_header csp_header _
      ∙ (get-set marker_header csp_header _ _ ∙ get-set csp_header csp_header policy down),
  get-delete report_header report_header _,
)

apply_plan-unsupported :
    (reason : CspUnsupportedReason) (down : Headers)
    → get csp_header (apply_plan (unsupported reason) down).1 ≡ get csp_header down
unfolding apply_plan list_beq
apply_plan-unsupported reason down = get-set marker_header csp_header _ down

plan-cases :
    (plan : CspTranslationPlan)
    → ((policy : Text) × (names : List Text) × (plan ≡ candidate policy names))
      ⊎ ((reason : CspUnsupportedReason) × (plan ≡ unsupported reason))
plan-cases (candidate policy names) = inl (policy, names, refl)
plan-cases (unsupported reason) = inr (reason, refl)

-- If the translation is applied, the document is HTML and its policy is the upstream one, of which every
-- directive is a denial that is kept; if not, no policy is added or taken away.
pub apply_experimental_csp-Enforced :
    (utf8 : Utf8) (down up : Headers) (content_type : Text) (is_document : Bool)
    → let (applied, after) = apply_experimental_csp utf8 down up content_type is_document in
      (applied ≡ true → Enforced up after content_type is_document)
      × (applied ≡ false → get csp_header after ≡ get csp_header down)
unfolding apply_experimental_csp Enforced
apply_experimental_csp-Enforced utf8 down up content_type is_document =
    elim (Bool-cases (not is_document || not (is_html content_type))) [
      | inl skipped ↦ rw skipped ((λ h. absurd (ground (arith, h))), λ h. refl)
      | inr taken ↦ elim (Option-cases (get csp_header up)) [
        | inl n ↦ rw (taken, n) ((λ h. absurd (ground (arith, h))), λ h. refl)
        | inr (raw, e) ↦ elim (Bool-cases (raw == [])) [
          | inl empty ↦ rw (taken, e, empty) ((λ h. absurd (ground (arith, h))), λ h. refl)
          | inr full ↦ elim (plan-cases (plan_csp_translation utf8 raw false)) [
            | inr (reason, p) ↦
                rw (taken, e, full, p)
                  (
                    (λ h. absurd (unfold apply_plan in ground (arith, h))),
                    λ h. apply_plan-unsupported reason down,
                  )
            | inl (policy, names, p) ↦
                let (denies, text) = candidate-Denies utf8 raw policy names false p in
                let (kept, gone) = apply_plan-candidate policy names down in
                rw (taken, e, full, p)
                  (
                    (λ h. (
                      raw,
                      names,
                      refl,
                      ground (arith, taken),
                      ground (arith, taken),
                      denies,
                      kept ∙ ap some text,
                      gone,
                    )),
                    λ h. absurd (unfold apply_plan in ground (arith, h)),
                  )
          ]
        ]
      ]
    ]
