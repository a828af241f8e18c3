-- ===== src/Rules/Overrides.antt =====
-- The per-site overrides of rules.ts: the longest covering host wins.
use zeolite.Prelude.{
  ◌≡◌, ◌↔◌, Bool, not, Option, none, some, List, [], arith, leb, length, filter, text_eq,
}
use zeolite.Prelude.Pick.{IsPreorder, IsFirstMax, pick-IsFirstMax, pick-none_iff}
use zeolite.Text.{Text}
use zeolite.Url.{Url}
use zeolite.Hosts.{matches_host}
use zeolite.Rules.{RulesState, SiteOverrideEntry, host_of, site_override_for}

abbrev pub no_longer : SiteOverrideEntry → SiteOverrideEntry → Bool
no_longer a b = leb (length a.host) (length b.host)

no_longer-IsPreorder : IsPreorder no_longer
no_longer-IsPreorder = record { total = λ a b h. ground arith; trans = λ a b c p q. ground arith }

-- The overrides whose host covers `h`, in their order.
abbrev pub covering : Text → List SiteOverrideEntry → List SiteOverrideEntry
covering h = filter (λ o. matches_host o.host h)

module _ (parse_url : Text → Option Url) where
  -- The override of an address is the one with the longest host among those that cover it, and the
  -- first such: any before it is shorter, and none after it is longer.
  pub site_override_for-longest :
      (s : RulesState) (url h : Text) (o : SiteOverrideEntry)
      → host_of parse_url url ≡ some h
      → site_override_for parse_url s url ≡ some o
      → IsFirstMax no_longer (covering h s.overrides) o
  unfolding site_override_for
  site_override_for-longest s url h o e f =
      pick-IsFirstMax no_longer no_longer-IsPreorder (covering h s.overrides) o
        (rw (e, site_override_for) at f)

  -- There is no override exactly when none covers the host.
  pub site_override_for-none_iff :
      (s : RulesState) (url h : Text)
      → host_of parse_url url ≡ some h
      → (site_override_for parse_url s url ≡ none) ↔ (covering h s.overrides ≡ [])
  unfolding site_override_for
  site_override_for-none_iff s url h e =
      rw (e, site_override_for)
        (pick-none_iff (λ o b. not (no_longer o b)) (covering h s.overrides))
