-- ===== src/Policy/Precedence.antt =====
-- Which rule of the policy wins.

use zeolite.Prelude.{
  ◌≡◌, ◌↔◌, Bool, true, false, Option, none, some, [], ◌∷◌, ◌++◌, arith, filter, filter-append,
  text_eq,
}
use zeolite.Prelude.Pick.{pick, IsPreorder, IsLastMax, pick-IsLastMax, pick-none_iff}
use zeolite.Text.{Text, to_lower}
use zeolite.Url.{Url}
use zeolite.Hosts.{undot_host}
use zeolite.Rules.{ResourceType}
use zeolite.Policy.{
  Route, PolicyRule, CompiledPolicy, is_behavior, is_transport, applies, policy_match,
  behavior_match, transport_match,
}

module _ {N : Type 0} (num_leb : N → N → Bool) where
  abbrev pub no_higher : PolicyRule N → PolicyRule N → Bool
  no_higher a b = num_leb a.priority b.priority

  -- The rules that apply to a parsed address, in document order.
  abbrev pub applicable : Url → ResourceType → CompiledPolicy N → CompiledPolicy N
  applicable u t = filter (applies (undot_host (to_lower u.hostname)) u.pathname t)

  module _ (order : IsPreorder num_leb) (parse_url : Text → Option Url) where
    no_higher-IsPreorder : IsPreorder no_higher
    no_higher-IsPreorder = record {
      total = λ a b. order.total a.priority b.priority;
      trans = λ a b c. order.trans a.priority b.priority c.priority;
    }

    -- The rule matched is an applicable one of the highest priority, and among those the last in
    -- document order.
    pub policy_match-highest :
        (rules : CompiledPolicy N) (url : Text) (u : Url) (t : ResourceType) (r : PolicyRule N)
        → parse_url url ≡ some u
        → policy_match num_leb parse_url rules url t ≡ some r
        → IsLastMax no_higher (applicable u t rules) r
    unfolding policy_match
    policy_match-highest rules url u t r e f =
        pick-IsLastMax no_higher no_higher-IsPreorder (applicable u t rules) r
          (rw (e, policy_match) at f)

    -- For an address that parses, no rule is matched exactly when none applies.
    pub policy_match-none_iff :
        (rules : CompiledPolicy N) (url : Text) (u : Url) (t : ResourceType)
        → parse_url url ≡ some u
        → (policy_match num_leb parse_url rules url t ≡ none) ↔ (applicable u t rules ≡ [])
    unfolding policy_match
    policy_match-none_iff rules url u t e =
        rw (e, policy_match) (pick-none_iff (λ r b. no_higher b r) (applicable u t rules))

    match-nil : (url : Text) (t : ResourceType) → policy_match num_leb parse_url [] url t ≡ none
    unfolding policy_match pick
    match-nil url t = ground arith

    behavior-policy_match :
        (rules : CompiledPolicy N) (url : Text) (t : ResourceType)
        → behavior_match num_leb parse_url rules url t
          ≡ policy_match num_leb parse_url (filter (λ r. is_behavior r.route) rules) url t
    unfolding behavior_match policy_match pick
    behavior-policy_match rules url t = ground arith

    transport-policy_match :
        (rules : CompiledPolicy N) (url : Text) (t : ResourceType)
        → transport_match num_leb parse_url rules url t
          ≡ policy_match num_leb parse_url (filter (λ r. is_transport r.route) rules) url t
    unfolding transport_match policy_match pick
    transport-policy_match rules url t = ground arith

    -- The two views never compete: a rule that chooses the wire changes no behavior match, and a rule
    -- that chooses the behavior changes no transport match, whatever its priority and its place.
    pub match_independent :
        (xs ys : CompiledPolicy N) (b w : PolicyRule N) (url : Text) (t : ResourceType)
        → is_behavior b.route ≡ true
        → is_transport w.route ≡ true
        → (behavior_match num_leb parse_url (xs ++ w ∷ ys) url t
            ≡ behavior_match num_leb parse_url (xs ++ ys) url t)
          × (transport_match num_leb parse_url (xs ++ b ∷ ys) url t
              ≡ transport_match num_leb parse_url (xs ++ ys) url t)
    match_independent xs ys b w url t p q = (
      rw (
        behavior-policy_match (xs ++ w ∷ ys) url t,
        behavior-policy_match (xs ++ ys) url t,
        filter-append (λ r. is_behavior r.route) xs (w ∷ ys),
        filter-append (λ r. is_behavior r.route) xs ys,
        not_behavior w.route q,
      ),
      rw (
        transport-policy_match (xs ++ b ∷ ys) url t,
        transport-policy_match (xs ++ ys) url t,
        filter-append (λ r. is_transport r.route) xs (b ∷ ys),
        filter-append (λ r. is_transport r.route) xs ys,
        not_transport b.route p,
      ),
    )
      where
        not_behavior : (r : Route) → is_transport r ≡ true → is_behavior r ≡ false
        not_behavior r h = ground arith

        not_transport : (r : Route) → is_behavior r ≡ true → is_transport r ≡ false
        not_transport r h = ground arith
