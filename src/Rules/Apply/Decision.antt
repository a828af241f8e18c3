-- ===== src/Rules/Apply/Decision.antt =====
-- What `applyRules` decides, against a description that walks no list: which lists cover the request.
use zeolite.Prelude.{
  ℕ, ◌≡◌, refl, ◌⊎◌, inl, inr, Bool, true, false, not, ◌&&◌, ◌||◌, Option, none, some, List, [],
  ◌∷◌, arith, if◌then◌else◌, is_some, any, Bool-cases, All, text_eq,
}
use zeolite.Text.{Text, starts_with}
use zeolite.Url.{Url}
use zeolite.Hosts.{matches_host}
use zeolite.Rules.{
  ResourceType, CompiledHost, CompiledRules, CompiledRewrite, Action, block, allow, pass,
  GhosteryDecision, RulesState, type_ok, first_match, host_of, site_override_for, rewrite_loop,
  other_host,
}
use zeolite.Rules.Apply.{passed, unspared, blocked_by, gate, apply_rules}

-- Some entry of the list covers the host and the type.
abbrev pub listed : List CompiledHost → Text → ResourceType → Bool
listed es h t = any (λ e. matches_host e.host h && type_ok e.types t) es

first_match-listed :
    (es : List CompiledHost) (h : Text) (t : ResourceType)
    → is_some (first_match es h t) ≡ listed es h t
unfolding first_match
first_match-listed [] h t = refl
first_match-listed (e ∷ es) h t = ground (arith, first_match-listed es h t)

-- The action for a host: allow beats block, and a spared site is only allowed or passed.
abbrev pub decides : Bool → Bool → Bool → Bool → Action
decides allowed spared blocked filtered =
    if allowed then allow else if spared then pass else if blocked || filtered then block else pass

module _ {R : Type 0} (parse_url : Text → Option Url)
    (ghostery_block : Text
      → ResourceType
      → Option Text
      → Option Text
      → Option (GhosteryDecision R)) where
  -- While the rules are enabled, a request whose URL has a host is allowed when an allow entry covers
  -- it; otherwise it passes when its site is spared, is blocked when a block entry covers it or the
  -- filter engine wants it blocked, and passes when neither does.
  pub apply_rules-decides :
      (s : RulesState) (r : CompiledRules) (url : Text) (t : ResourceType)
      (source destination : Option Text) (c : ℕ) (h : Text)
      → s.enabled ≡ true
      → host_of parse_url url ≡ some (c ∷ h)
      → (apply_rules parse_url ghostery_block s r url t source destination).action
        ≡ decides
            (listed r.allow (c ∷ h) t)
            (not (unspared (site_override_for parse_url s url)))
            (listed r.block (c ∷ h) t)
            (is_some (ghostery_block url t source destination))
  unfolding apply_rules gate blocked_by
  apply_rules-decides s r url t source destination c h on e =
      ground (arith, first_match-listed r.allow (c ∷ h) t, first_match-listed r.block (c ∷ h) t)

  -- The switch off, or a text with no host, gives the empty decision: nothing is blocked, rewritten
  -- or modified.
  pub apply_rules-off :
      (s : RulesState) (r : CompiledRules) (url : Text) (t : ResourceType)
      (source destination : Option Text)
      → (s.enabled ≡ false) ⊎ (host_of parse_url url ≡ none)
      → apply_rules parse_url ghostery_block s r url t source destination ≡ passed
  unfolding apply_rules
  apply_rules-off s r url t source destination (inl e) = ground arith
  apply_rules-off s r url t source destination (inr e) = ground arith

-- No entry applies to the address: each has another prefix, or names another host.
abbrev pub Foreign : (Text → Option Url) → Text → List CompiledRewrite → Type 0
Foreign parse_url u =
    All (λ e. (starts_with u e.from ≡ false) ⊎ (other_host e.from_url (host_of parse_url u) ≡ true))

module _ (parse_url : Text → Option Url) where
  -- A rewrite whose `from` is an address of another host, or no prefix of the address, leaves the
  -- address alone, whatever its text: only rules for this host can rewrite it.
  pub rewrite_loop-Foreign :
      (es : List CompiledRewrite) (t : ResourceType) (u : Text) (out : Option Text)
      → Foreign parse_url u es
      → rewrite_loop parse_url es t u out ≡ (u, out)
  unfolding rewrite_loop
  rewrite_loop-Foreign [] t u out f = refl
  rewrite_loop-Foreign (e ∷ es) t u out (inl p, f) = rw p (rewrite_loop-Foreign es t u out f)
  rewrite_loop-Foreign (e ∷ es) t u out (inr p, f) = elim (Bool-cases (starts_with u e.from)) [
    | inl q ↦ rw (q, p) (rewrite_loop-Foreign es t u out f)
    | inr q ↦ rw q (rewrite_loop-Foreign es t u out f)
  ]
