-- ===== src/Csp/Policy/Reads.antt =====
-- What a client's plan holds was written in the policy of its document.
use zeolite.Prelude.{
  ◌≡◌, ◌⊎◌, true, false, Option, some, List, [], ◌∷◌, ◌==◌, ==_refl, text_eq, any, In, arith,
}
use zeolite.Prelude.Maps.{get, get-set}
use zeolite.Text.{Text, to_lower, split}
use zeolite.Url.{Url}
use zeolite.Csp.{
  CspSource, CspEnginePlan, empty_csp_plan, CspRegistry, is_web, default_name, source_matches,
  dest_directive, csp_set_client, make_room,
}
use zeolite.Csp.Policy.{words, parse_source_list}
use zeolite.Csp.Policy.Lists.{Unlisted}
use zeolite.Csp.Gate.{Governs, Mismatched, Refuses, Blocks}

-- A directive of one of the parts, under the name, with a list that can be verified.
unfoldable pub Written : List Text → Text → List CspSource → Type 0
Written parts name list =
    (part : Text) × (word : Text) × (tokens : List Text) × In part parts
    × (words part ≡ word ∷ tokens)
    × (to_lower word ≡ name)
    × (parse_source_list tokens ≡ some list)

-- All lists of the plan are written in the parts, and the plan is for the page.
pub record IsWritten (parts : List Text) (page : CspEnginePlan) (plan : CspEnginePlan)
    : Type 0 where
  pub own_list :
      (name : Text) (list : List CspSource)
      → get name plan.sources ≡ some list
      → Written parts name list
  pub default_list :
      (list : List CspSource) → plan.default_src ≡ some list → Written parts default_name list
  pub same_origin : plan.self_origin ≡ page.self_origin
  pub same_scheme : plan.page_scheme ≡ page.page_scheme

get-csp_set_client :
    (reg : CspRegistry) (id : Text) (plan : CspEnginePlan)
    → (id == []) ≡ false
    → get id (csp_set_client reg id plan) ≡ some plan
unfolding csp_set_client
get-csp_set_client reg id plan h =
    ground (arith, h, get-set id id plan (make_room id reg), ==_refl id)

-- The policy of the page has a directive for the request, all of whose sources can be verified and none of
-- which admits the address: its own, or the default one where no directive of its own has sources.
pub record IsForbidden (parse_url : Text → Option Url) (raw doc_url dest abs_url : Text)
    : Type 0 where
  pub page : Url
  pub target : Url
  pub directive : Text
  pub name : Text
  pub list : List CspSource
  pub is_page : parse_url doc_url ≡ some page
  pub page_web : is_web page ≡ true
  pub is_target : parse_url abs_url ≡ some target
  pub target_web : is_web target ≡ true
  pub of_dest : get dest dest_directive ≡ some directive
  pub named : (name ≡ directive) ⊎ ((name ≡ default_name) × Unlisted directive (split b';' raw))
  pub written : Written (split b';' raw) name list
  pub unmatched :
      any (λ s. source_matches s target (empty_csp_plan page.origin page.protocol)) list ≡ false

-- A client that is given an empty plan has nothing blocked.
pub empty_csp_plan-Blocks :
    (parse_url : Text → Option Url) (reg : CspRegistry) (id dest abs_url o p : Text)
    → ¬ Blocks parse_url (csp_set_client reg id (empty_csp_plan o p)) (some id) dest abs_url
unfolding Blocks Refuses Mismatched Governs get
empty_csp_plan-Blocks parse_url reg id dest abs_url o p b =
    let (jd, directive, held, c, full, d, g, r) = b in
    let (target, t, tw, m) = r in
    let (list, gov, miss) = m in
    let same_id : jd ≡ id = ground (arith, c) in
    let full_id : (id == []) ≡ false = rw same_id at full in
    let stored = rw same_id at g in
    let same_plan : held ≡ empty_csp_plan o p =
      ground (arith, stored, get-csp_set_client reg id (empty_csp_plan o p) full_id) in
    let governed = rw same_plan at gov in ground (arith, governed)
