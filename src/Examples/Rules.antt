-- ===== src/Examples/Rules.antt =====
-- The rules and the policy on a few addresses, and the theorems about them at these values.
use zeolite.Prelude.{
  ℕ, ◌≡◌, refl, false, not, Option, none, some, is_some, List, [], ◌∷◌, map, All, leb, text_eq,
  list_beq,
}
use zeolite.Prelude.Pick.{pick, IsLastMax}
use zeolite.Prelude.Result.{ok}
use zeolite.Prelude.Maps.{get}
use zeolite.Text.{Text, txt, split, to_lower, ends_with}
use zeolite.Url.{Url}
use zeolite.Hosts.{undot_host, covers, matches_host}
use zeolite.Numbers.{leb-IsPreorder}
use zeolite.Rules.{
  ResourceType, script, image, CompiledRules, SiteOverrideEntry, RulesState, init, host_of,
  site_override_for, type_ok, GhosteryDecision,
}
use zeolite.Rules.Apply.{apply_rules, unspared}
use zeolite.Rules.Apply.Decision.{listed, decides, apply_rules-decides}
use zeolite.Kdl.{KdlNode, name, node, str, num, cons, nil}
use zeolite.Policy.{Route, rewrite, wisp, PolicyRule, CompiledPolicy, policy_match, applies}
use zeolite.Policy.Precedence.{no_higher, applicable, policy_match-highest}
use zeolite.Policy.Compile.{
  compile_policy, rule_id, compile_loop, compile_rule, rule_priority, match_prop, check_children,
  rule_types, rule_route, rule_reason, child, route_of,
}
use zeolite.Policy.Compile.Laws.{ids, Distinct, compile_policy-ids}
use zeolite.Examples.{simple_url}

abbrev address : Text
address = txt "https://ads.a.com/x"

abbrev parsed : Url
parsed = record {
  protocol = txt "https:";
  origin = txt "https://ads.a.com";
  host = txt "ads.a.com";
  hostname = txt "ads.a.com";
  port = [];
  pathname = txt "/x";
  search = [];
  hash = [];
}

abbrev rules : CompiledRules
rules = record {
  block = record { host = txt "a.com"; types = none } ∷ [];
  allow = record { host = txt "a.com"; types = some (image ∷ []) } ∷ [];
  rewrite = [];
  modify = [];
}

abbrev filter_engine : Text → ResourceType → Option Text → Option Text → Option (GhosteryDecision ℕ)
filter_engine url t source destination = none

abbrev short : SiteOverrideEntry
short = record { host = txt "com"; adblock = some false; ua = none }

abbrev long : SiteOverrideEntry
long = record { host = txt "a.com"; adblock = none; ua = none }

abbrev overridden : RulesState
overridden = record init { overrides = short ∷ long ∷ [] }

host_of-address : host_of simple_url address ≡ some (txt "ads.a.com")
unfolding host_of simple_url split to_lower
host_of-address = refl

parsed_address : simple_url address ≡ some parsed
unfolding simple_url split
parsed_address = refl

override : site_override_for simple_url overridden address ≡ some long
unfolding site_override_for host_of simple_url split to_lower pick matches_host covers undot_host
    ends_with list_beq
override = refl

apply_rules-decides_example :
    (apply_rules simple_url filter_engine init rules address script none none).action
    ≡ decides
        (listed rules.allow (txt "ads.a.com") script)
        (not (unspared (site_override_for simple_url init address)))
        (listed rules.block (txt "ads.a.com") script)
        (is_some (filter_engine address script none none))
apply_rules-decides_example =
    apply_rules-decides {R = ℕ} simple_url filter_engine init rules address script none none b'a'
      (txt "ds.a.com") refl host_of-address

abbrev rule : Text → ℕ → Route → PolicyRule ℕ
rule id priority route = record {
  id = id;
  priority = priority;
  host = some (txt "a.com");
  path = none;
  types = none;
  reason = none;
  route = route;
}

abbrev policy : CompiledPolicy ℕ
policy = rule (txt "one") 5 rewrite ∷ rule (txt "two") 5 wisp ∷ rule (txt "three") 1 rewrite ∷ []

matched : policy_match leb simple_url policy address script ≡ some (rule (txt "two") 5 wisp)
unfolding policy_match simple_url split to_lower pick applies type_ok covers undot_host ends_with
    list_beq
matched = refl

policy_match-highest_example :
    IsLastMax (no_higher leb) (applicable leb parsed script policy) (rule (txt "two") 5 wisp)
policy_match-highest_example =
    policy_match-highest leb leb-IsPreorder simple_url policy address parsed script
      (rule (txt "two") 5 wisp) parsed_address matched

abbrev document : List (KdlNode ℕ)
document =
    node (txt "rule") (str (txt "one") ∷ []) ((txt "priority", num 5) ∷ [])
      (cons (node (txt "route") (str (txt "wisp") ∷ []) [] nil) nil)
    ∷ []

abbrev compiled : CompiledPolicy ℕ
compiled = record (rule (txt "one") 5 wisp) { host = none } ∷ []

compiles : compile_policy 0 document ≡ ok compiled
unfolding compile_policy compile_loop compile_rule rule_id rule_priority match_prop check_children
    rule_types rule_route rule_reason child route_of get list_beq
compiles = refl

compile_policy-ids_example :
    (map (λ n. rule_id n) document ≡ map (λ i. ok i) (ids compiled))
    × Distinct [] (ids compiled)
    × All (λ n. name n ≡ txt "rule") document
compile_policy-ids_example = compile_policy-ids 0 document compiled compiles
