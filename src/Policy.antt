-- ===== src/Policy.antt =====
-- app/src/policy.ts: the compatibility policy, its compilation from a KDL document and the one rule
-- that a request matches.
pub mod Precedence
pub mod Compile
use zeolite.Prelude.{
  ℕ, Bool, true, false, not, ◌&&◌, ◌||◌, Option, none, some, List, [], ◌∷◌, ◌++◌, if◌then◌else◌,
  eqb, filter, any, is_some, text_eq,
}
use zeolite.Prelude.Pick.{pick}
use zeolite.Text.{Text, to_lower, starts_with}
use zeolite.Url.{Url}
use zeolite.Hosts.{undot_host, covers}
use zeolite.Rules.{ResourceType, type_ok}

pub data Route : Type 0 where
  rewrite native relay wisp : Route

-- `N` is the type of the priorities.
pub record PolicyRule (N : Type 0) : Type 0 where
  pub id : Text
  pub priority : N
  pub host : Option Text
  pub path : Option Text
  pub types : Option (List ResourceType)
  pub reason : Option Text
  pub route : Route

abbrev pub CompiledPolicy : Type 0 → Type 0
CompiledPolicy N = List (PolicyRule N)

abbrev pub is_behavior : Route → Bool
is_behavior rewrite = true
is_behavior native = true
is_behavior relay = false
is_behavior wisp = false

abbrev pub is_transport : Route → Bool
is_transport rewrite = false
is_transport native = false
is_transport relay = true
is_transport wisp = true

abbrev host_ok : Option Text → Text → Bool
host_ok none h = true
host_ok (some r) h = covers (undot_host r) h

abbrev path_ok : Option Text → Text → Bool
path_ok none p = true
path_ok (some r) p = starts_with p r

module _ {N : Type 0} where
  -- The tests of the loop, each of which skips the rule; `host` has no trailing dot.
  unfoldable pub applies : Text → Text → ResourceType → PolicyRule N → Bool
  applies host path t r = host_ok r.host host && (path_ok r.path path && type_ok r.types t)

  module _ (num_leb : N → N → Bool) (parse_url : Text → Option Url) where
    unfoldable pub policy_match : CompiledPolicy N → Text → ResourceType → Option (PolicyRule N)
    unfolding applies
    policy_match rules url t = elim (parse_url url) [
      | none ↦ none
      | some u ↦
          pick (λ r best. num_leb best.priority r.priority)
            (filter (applies (undot_host (to_lower u.hostname)) u.pathname t) rules) none
    ]

    pub behavior_match : CompiledPolicy N → Text → ResourceType → Option (PolicyRule N)
    unfolding policy_match
    behavior_match rules url t = elim (filter (λ r. is_behavior r.route) rules) [
      | [] ↦ none
      | r ∷ rs ↦ policy_match (r ∷ rs) url t
    ]

    pub transport_match : CompiledPolicy N → Text → ResourceType → Option (PolicyRule N)
    unfolding policy_match
    transport_match rules url t = elim (filter (λ r. is_transport r.route) rules) [
      | [] ↦ none
      | r ∷ rs ↦ policy_match (r ∷ rs) url t
    ]
