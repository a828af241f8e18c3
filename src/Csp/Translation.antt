-- ===== src/Csp/Translation.antt =====
-- The translation of policies in app/src/csp-translation.ts, without the wasm seam, whose body this is.
-- Headers are a map with lower-case names.
pub mod Denies
use zeolite.Prelude.{
  ℕ, suc, Bool, true, false, ◌&&◌, ◌||◌, not, Option, none, some, List, [], ◌∷◌, ◌++◌, leb, eqb,
  ◌==◌, text_eq, length, any, map, if◌then◌else◌,
}
use zeolite.Prelude.Maps.{get, set, delete}
use zeolite.Prelude.Result.{Result, ok, err}
use zeolite.Text.{Text, txt, starts_with, to_lower, trim, trim_start, split}
use zeolite.Codec.Token.{Utf8}
use zeolite.Csp.{join_by}
use zeolite.Csp.Policy.{
  words, directive_name, one_of, is_forbidden, max_policy_bytes, max_directives,
}

pub data CspUnsupportedReason : Type 0 where
  oversize invalid_syntax duplicate_directive unsupported_directive unsupported_source report_only :
      CspUnsupportedReason

pub data CspTranslationPlan : Type 0 where
  candidate : Text → List Text → CspTranslationPlan
  unsupported : CspUnsupportedReason → CspTranslationPlan

abbrev pub deny_only : List Text
deny_only =
    txt "object-src"
    ∷ txt "base-uri"
    ∷ txt "form-action"
    ∷ txt "worker-src"
    ∷ txt "frame-src"
    ∷ txt "child-src"
    ∷ []

abbrev pub none_source : Text
none_source = txt "'none'"

-- The one source `'none'`.
unfoldable pub only_none : List Text → Bool
only_none [] = false
only_none (token ∷ []) = to_lower token == none_source
only_none (token ∷ other ∷ tokens) = false

-- What is wrong with a directive, if something is.
unfoldable pub fault : List Text → Text → List Text → Option CspUnsupportedReason
fault seen name tokens =
    if not (directive_name name)
    then some invalid_syntax
    else if one_of seen name
    then some duplicate_directive
    else if not (one_of deny_only name)
    then some unsupported_directive
    else if only_none tokens
    then none
    else some unsupported_source

-- The names of the directives, in order.
unfoldable pub emitted_names : List Text → List Text → Result CspUnsupportedReason (List Text)
emitted_names [] seen = ok []
emitted_names (part ∷ parts) seen = elim (words part) [
  | [] ↦ emitted_names parts seen
  | word ∷ tokens ↦ elim (fault seen (to_lower word) tokens) [
    | some reason ↦ err reason
    | none ↦ elim (emitted_names parts (to_lower word ∷ seen)) [
      | err reason ↦ err reason
      | ok names ↦ ok (to_lower word ∷ names)
    ]
  ]
]

abbrev pub denial : Text → Text
denial name = name ++ txt " 'none'"

unfoldable pub candidate_of : Result CspUnsupportedReason (List Text) → CspTranslationPlan
candidate_of (err reason) = unsupported reason
candidate_of (ok []) = unsupported invalid_syntax
candidate_of (ok (n ∷ names)) = candidate (join_by (txt "; ") (map denial (n ∷ names))) (n ∷ names)

unfoldable pub plan_csp_translation : Utf8 → Text → Bool → CspTranslationPlan
plan_csp_translation utf8 raw only_report =
    if only_report
    then unsupported report_only
    else if not (leb (length (utf8.encode raw)) max_policy_bytes)
    then unsupported oversize
    else if trim raw == [] || any is_forbidden raw
    then unsupported invalid_syntax
    else if not (leb (length (split b';' raw)) (suc max_directives))
    then unsupported oversize
    else candidate_of (emitted_names (split b';' raw) [])

abbrev pub Headers : Type 0
Headers = List (Text × Text)

abbrev pub csp_header : Text
csp_header = txt "content-security-policy"

abbrev pub report_header : Text
report_header = txt "content-security-policy-report-only"

abbrev pub marker_header : Text
marker_header = txt "x-zl-csp"

unfoldable pub plan_csp_headers :
    Utf8 → Headers → Option CspTranslationPlan × Option CspTranslationPlan
plan_csp_headers utf8 headers = (
  elim (get csp_header headers) [
    | none ↦ none
    | some raw ↦ some (plan_csp_translation utf8 raw false)
  ],
  elim (get report_header headers) [
    | none ↦ none
    | some raw ↦ some (plan_csp_translation utf8 raw true)
  ],
)

unfoldable pub reason_text : CspUnsupportedReason → Text
reason_text oversize = txt "oversize"
reason_text invalid_syntax = txt "invalid-syntax"
reason_text duplicate_directive = txt "duplicate-directive"
reason_text unsupported_directive = txt "unsupported-directive"
reason_text unsupported_source = txt "unsupported-source"
reason_text report_only = txt "report-only"

-- The end of a type, or its parameters.
unfoldable pub ends_type : Text → Bool
ends_type [] = true
ends_type (c ∷ s) = eqb c b';'

unfoldable pub type_after : Text → Text → Option Text
type_after [] s = some s
type_after (p ∷ ps) [] = none
type_after (p ∷ ps) (c ∷ s) = if eqb c p then type_after ps s else none

abbrev pub is_type : Text → Text → Bool
is_type name s = elim (type_after name s) [ none ↦ false | some rest ↦ ends_type (trim_start rest) ]

unfoldable pub is_html : Text → Bool
is_html content_type =
    let s = to_lower (trim content_type) in
    is_type (txt "text/html") s || is_type (txt "application/xhtml+xml") s

-- The headers after the plan, and whether it is enforced.
unfoldable pub apply_plan : CspTranslationPlan → Headers → Bool × Headers
apply_plan (unsupported reason) down =
    (false, set marker_header (txt "unsupported " ++ reason_text reason) down)
apply_plan (candidate policy directives) down = (
  true,
  delete report_header (
      set marker_header (txt "enforced " ++ join_by (txt ",") directives)
        (set csp_header policy down)),
)

unfoldable pub apply_experimental_csp : Utf8 → Headers → Headers → Text → Bool → Bool × Headers
apply_experimental_csp utf8 down up content_type is_document =
    if not is_document || not (is_html content_type)
    then (false, down)
    else elim (get csp_header up) [
      | none ↦ (false, down)
      | some raw ↦
          if raw == [] then (false, down) else apply_plan (plan_csp_translation utf8 raw false) down
    ]
