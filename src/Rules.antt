-- ===== src/Rules.antt =====
-- app/src/rules.ts: the interception rules, their compilation and evaluation, and the per-site
-- overrides. The parsed rule file is `RulesData`; `ghosteryBlock`, which asks a third-party filter
-- engine, is an argument of `apply_rules`.
pub mod Apply
pub mod Overrides
use zeolite.Prelude.{
  ℕ, suc, ◌+◌, ◌-◌, Bool, true, false, not, ◌&&◌, ◌||◌, Option, none, some, List, [], ◌∷◌, ◌++◌,
  map, if◌then◌else◌, eqb, ltb, leb, length, drop, filter, any, text_eq, ◌==◌, or_else,
}
use zeolite.Prelude.Maps.{set}
use zeolite.Prelude.Pick.{pick}
use zeolite.Text.{Text, to_lower, starts_with}
use zeolite.Url.{Url}
use zeolite.Hosts.{undot_host, covers, matches_host}

pub data ResourceType : Type 0 where
  document script style image font media websocket worker manifest eventsource wasm fetch other :
      ResourceType

abbrev pub type_code : ResourceType → ℕ
type_code document = 0
type_code script = 1
type_code style = 2
type_code image = 3
type_code font = 4
type_code media = 5
type_code websocket = 6
type_code worker = 7
type_code manifest = 8
type_code eventsource = 9
type_code wasm = 10
type_code fetch = 11
type_code other = 12

pub record HostEntry : Type 0 where
  pub host : Text
  pub types : Option (List ResourceType)

pub record RewriteEntry : Type 0 where
  pub from : Text
  pub to : Text
  pub types : Option (List ResourceType)

abbrev pub Headers : Type 0
Headers = List (Text × Text)

pub record ModifyEntry : Type 0 where
  pub host : Text
  pub headers : Headers
  pub types : Option (List ResourceType)

-- An absent list is the empty one: the source reads each as `data?.list ?? []`.
pub record RulesData : Type 0 where
  pub block : List HostEntry
  pub allow : List HostEntry
  pub rewrite : List RewriteEntry
  pub modify : List ModifyEntry

pub record CompiledHost : Type 0 where
  pub host : Text
  pub types : Option (List ResourceType)

pub record CompiledRewrite : Type 0 where
  pub from : Text
  pub to : Text
  pub types : Option (List ResourceType)
  pub from_url : Option Url

pub record CompiledModify : Type 0 where
  pub host : Text
  pub headers : Headers
  pub types : Option (List ResourceType)

pub record CompiledRules : Type 0 where
  pub block : List CompiledHost
  pub allow : List CompiledHost
  pub rewrite : List CompiledRewrite
  pub modify : List CompiledModify

abbrev pub is_empty {ℓ} : {A : Type ℓ} → List A → Bool
is_empty [] = true
is_empty (x ∷ xs) = false

-- `e.types?.length ? new Set(e.types) : null`
pub type_filter : Option (List ResourceType) → Option (List ResourceType)
type_filter none = none
type_filter (some []) = none
type_filter (some (t ∷ ts)) = some (t ∷ ts)

-- `host.toLowerCase().replace(/^\*\./, "")`
unfoldable pub strip_wildcard : Text → Text
strip_wildcard h = let l = to_lower h in if starts_with l (b'*' ∷ b'.' ∷ []) then drop 2 l else l

pub compile_hosts : List HostEntry → List CompiledHost
unfolding type_filter strip_wildcard
compile_hosts l =
    map (λ e. record { host = strip_wildcard e.host; types = type_filter e.types })
      (filter (λ e. not (is_empty e.host)) l)

unfoldable pub type_ok : Option (List ResourceType) → ResourceType → Bool
type_ok none t = true
type_ok (some ts) t = any (λ x. eqb (type_code x) (type_code t)) ts

pub data Action : Type 0 where
  block allow pass : Action

-- `R` is the filter engine's redirect, which the decision only carries.
pub record RuleDecision (R : Type 0) : Type 0 where
  pub action : Action
  pub url : Option Text
  pub headers : Option Headers
  pub matched : Option Text
  pub ghostery_redirect : Option R

pub record GhosteryDecision (R : Type 0) : Type 0 where
  pub host : Text
  pub redirect : Option R

pub record SiteOverrideEntry : Type 0 where
  pub host : Text
  pub adblock : Option Bool
  pub ua : Option Text

-- The module's state: the toggle, the override set and the default user agent.
pub record RulesState : Type 0 where
  pub enabled : Bool
  pub overrides : List SiteOverrideEntry
  pub default_ua : Option Text

abbrev pub init : RulesState
init = record { enabled = true; overrides = []; default_ua = none }

pub set_rules_enabled : Bool → RulesState → RulesState
set_rules_enabled b s = record s { enabled = b }

abbrev non_empty : Option Text → Option Text
non_empty none = none
non_empty (some []) = none
non_empty (some (c ∷ t)) = some (c ∷ t)

-- Returns the number of stored entries; a list that is not an array is the empty list.
pub set_site_overrides : List SiteOverrideEntry → Option Text → RulesState → RulesState × ℕ
unfolding strip_wildcard
set_site_overrides list ua s =
    let stored =
      map (λ e. record { host = strip_wildcard e.host; adblock = e.adblock; ua = non_empty e.ua })
        (filter (λ e. not (is_empty e.host)) list) in
    (record s { overrides = stored; default_ua = non_empty ua }, length stored)

-- `for (e of hosts) if (matchesHost(e, host) && typeOk(e.types, rtype)) …; break;`
pub first_match : List CompiledHost → Text → ResourceType → Option Text
unfolding type_ok
first_match [] h t = none
first_match (e ∷ es) h t =
    let rest = first_match es h t in
    if matches_host e.host h && type_ok e.types t then some e.host else rest

abbrev pub ghostery_label : Text → Text
ghostery_label host = b'G' ∷ b'h' ∷ b'o' ∷ b's' ∷ b't' ∷ b'e' ∷ b'r' ∷ b'y' ∷ b':' ∷ b' ' ∷ host

-- `{ ...a, ...b }`
pub merge_headers : Headers → Headers → Headers
merge_headers a [] = a
merge_headers a ((k, v) ∷ b) = merge_headers (set k v a) b

-- `e.fromUrl && hostOf(u) !== e.fromUrl.hostname`
pub other_host : Option Url → Option Text → Bool
other_host none h = false
other_host (some f) none = true
other_host (some f) (some h) = not (h == f.hostname)

module _ (parse_url : Text → Option Url) where
  unfoldable pub host_of : Text → Option Text
  host_of url = elim (parse_url url) [ none ↦ none | some u ↦ some (to_lower u.hostname) ]

  pub compile_rules : RulesData → CompiledRules
  unfolding compile_hosts type_filter
  compile_rules data' = record {
    block = compile_hosts data'.block;
    allow = compile_hosts data'.allow;
    rewrite =
        map
          (λ r. record {
            from = r.from;
            to = r.to;
            types = type_filter r.types;
            from_url = parse_url r.from;
          })
          (filter (λ r. not (is_empty r.from) && not (is_empty r.to)) data'.rewrite);
    modify =
        map
          (λ m. record { host = to_lower m.host; headers = m.headers; types = type_filter m.types })
          (filter (λ m. not (is_empty m.host)) data'.modify);
  }

  pub allowlisted_host_for : CompiledRules → Text → ResourceType → Option Text
  unfolding host_of
  allowlisted_host_for r url t = elim (host_of url) [
    | none ↦ none
    | some [] ↦ none
    | some (c ∷ h) ↦ first_match r.allow (c ∷ h) t
  ]

  unfoldable pub site_override_for : RulesState → Text → Option SiteOverrideEntry
  unfolding host_of
  site_override_for s url = elim (host_of url) [
    | none ↦ none
    | some h ↦
        pick (λ o b. not (leb (length o.host) (length b.host)))
          (filter (λ o. matches_host o.host h) s.overrides) none
  ]

  pub site_ua_for : RulesState → Text → Option Text
  unfolding site_override_for
  site_ua_for s url = elim (site_override_for s url) [
    | none ↦ s.default_ua
    | some o ↦ elim o.ua [ none ↦ s.default_ua | some ua ↦ some ua ]
  ]

  -- The loop over `r.rewrite`: the current address, and `dec.url`.
  pub rewrite_loop : List CompiledRewrite → ResourceType → Text → Option Text → Text × Option Text
  unfolding type_ok host_of other_host
  rewrite_loop [] t u out = (u, out)
  rewrite_loop (e ∷ es) t u out =
      let skip = rewrite_loop es t u out in
      let u' = e.to ++ drop (length e.from) u in
      let taken = rewrite_loop es t u' (some u') in
      if not (starts_with u e.from)
      then skip
      else if other_host e.from_url (host_of u)
      then skip
      else if type_ok e.types t
      then taken
      else skip

  pub modify_loop : List CompiledModify → Text → ResourceType → Option Headers → Option Headers
  unfolding type_ok
  modify_loop [] h t out = out
  modify_loop (e ∷ es) h t out = modify_loop es h t (
      if matches_host e.host h && type_ok e.types t
      then some (merge_headers (or_else out []) e.headers)
      else out)
