-- ===== src/Rules/Apply.antt =====
-- `applyRules` of app/src/rules.ts.
pub mod Decision
use zeolite.Prelude.{Bool, true, false, Option, none, some, List, [], ◌∷◌, if◌then◌else◌, is_some}
use zeolite.Text.{Text}
use zeolite.Url.{Url}
use zeolite.Rules.{
  ResourceType, CompiledRules, Action, block, allow, pass, RuleDecision, GhosteryDecision,
  RulesState, first_match, ghostery_label, host_of, site_override_for, rewrite_loop, modify_loop,
  SiteOverrideEntry,
}

-- `siteOverrideFor(url)?.adblock !== false`
abbrev pub unspared : Option SiteOverrideEntry → Bool
unspared none = true
unspared (some o) = elim o.adblock [ none ↦ true | some b ↦ b ]

module _ {R : Type 0} where
  abbrev pub passed : RuleDecision R
  passed = record {
    action = pass;
    url = none;
    headers = none;
    matched = none;
    ghostery_redirect = none;
  }

  pub blocked_by : Option Text → Option (GhosteryDecision R) → RuleDecision R
  blocked_by (some h) g = record passed { action = block; matched = some h }
  blocked_by none (some g) = record passed {
    action = block;
    matched = some (ghostery_label g.host);
    ghostery_redirect = g.redirect;
  }
  blocked_by none none = passed

  module _ (parse_url : Text → Option Url)
      (ghostery_block : Text
        → ResourceType
        → Option Text
        → Option Text
        → Option (GhosteryDecision R)) where
    -- The allow list, then the block lists unless the site is spared.
    pub gate :
        RulesState
        → CompiledRules
        → Text
        → Text
        → ResourceType
        → Option Text
        → Option Text
        → RuleDecision R
    unfolding blocked_by
    gate s r url host t source destination = elim (first_match r.allow host t) [
      | some e ↦ record passed { action = allow; matched = some e }
      | none ↦
          if unspared (site_override_for parse_url s url)
          then blocked_by (first_match r.block host t) (ghostery_block url t source destination)
          else passed
    ]

    pub apply_rules :
        RulesState
        → CompiledRules
        → Text
        → ResourceType
        → Option Text
        → Option Text
        → RuleDecision R
    unfolding gate
    apply_rules s r url t source destination =
        if s.enabled
        then elim (host_of parse_url url) [
          | none ↦ passed
          | some h ↦ elim h [
            | [] ↦ passed
            | c ∷ k ↦ record (gate s r url (c ∷ k) t source destination) {
              url = (rewrite_loop parse_url r.rewrite t url none).1;
              headers = modify_loop parse_url r.modify (c ∷ k) t none;
            }
          ]
        ]
        else passed
