-- ===== src/Hosts.antt =====
-- Host comparison as rules.ts and policy.ts make it: a trailing dot names the same host, and an
-- entry covers its host and every subdomain.
use zeolite.Prelude.{
  ◌≡◌, refl, ap, ◌↔◌, ◌⊎◌, inl, inr, Bool, true, ◌||◌, [], ◌∷◌, ◌++◌, arith, eqb, if◌then◌else◌,
  text_eq, ◌==◌, list_beq_iff, list_beq, Bool-cases,
}
use zeolite.Text.{Text, ends_with}

-- `h.endsWith(".") ? h.slice(0, -1) : h`
unfoldable pub undot_host : Text → Text
undot_host [] = []
undot_host (c ∷ h) = elim h [ [] ↦ if eqb c b'.' then [] else c ∷ [] | d ∷ r ↦ c ∷ undot_host h ]

-- `host === entry || host.endsWith("." + entry)`
unfoldable pub covers : Text → Text → Bool
covers entry host = host == entry || ends_with host (b'.' ∷ entry)

-- `matchesHost`: both sides without their trailing dot.
unfoldable pub matches_host : Text → Text → Bool
matches_host entry host = covers (undot_host entry) (undot_host host)

undot-dotted : (h : Text) → undot_host (h ++ b'.' ∷ []) ≡ h
unfolding undot_host
undot-dotted [] = refl
undot-dotted (c ∷ []) = refl
undot-dotted (c ∷ d ∷ r) = ap (λ t. c ∷ t) (undot-dotted (d ∷ r))

ends_with_sound : (s t : Text) → ends_with s t ≡ true → (pre : Text) × (s ≡ pre ++ t)
unfolding ends_with
ends_with_sound [] t h = ([], (list_beq_iff [] t).0 h)
ends_with_sound (c ∷ s) t h = elim (Bool-cases (list_beq (c ∷ s) t)) [
  | inl e ↦ ([], (list_beq_iff (c ∷ s) t).0 e)
  | inr e ↦ let (pre, q) = ends_with_sound s t (rw e at h) in (c ∷ pre, ap (λ x. c ∷ x) q)
]

pub ends_with-append : (pre t : Text) → ends_with (pre ++ t) t ≡ true
unfolding ends_with
ends_with-append [] [] = (list_beq_iff [] []).1 refl
ends_with-append [] (c ∷ t) = rw ((list_beq_iff (c ∷ t) (c ∷ t)).1 refl)
ends_with-append (c ∷ pre) t = ground (arith, ends_with-append pre t)

-- `endsWith` holds exactly of the texts with that suffix.
pub ends_with_iff : (s t : Text) → (ends_with s t ≡ true) ↔ ((pre : Text) × (s ≡ pre ++ t))
ends_with_iff s t = (ends_with_sound s t, λ (pre, e). rw e (ends_with-append pre t))

covers_sound : (e h : Text) → covers e h ≡ true → (h ≡ e) ⊎ ((sub : Text) × (h ≡ sub ++ b'.' ∷ e))
unfolding covers
covers_sound e h c = elim (Bool-cases (h == e)) [
  | inl q ↦ inl ((list_beq_iff h e).0 q)
  | inr q ↦ inr (ends_with_sound h (b'.' ∷ e) (rw q at c))
]

covers_complete :
    (e h : Text) → (h ≡ e) ⊎ ((sub : Text) × (h ≡ sub ++ b'.' ∷ e)) → covers e h ≡ true
unfolding covers
covers_complete e h (inl q) = ground (arith, list_beq_iff h e)
covers_complete e h (inr (sub, q)) =
    let ends : ends_with h (b'.' ∷ e) ≡ true = (ends_with_iff h (b'.' ∷ e)).1 (sub, q) in
    ground arith

-- An entry covers exactly its own host and the hosts that end in a dot and the entry: a host that
-- only ends in the same letters is not covered.
pub covers_iff :
    (e h : Text) → (covers e h ≡ true) ↔ ((h ≡ e) ⊎ ((sub : Text) × (h ≡ sub ++ b'.' ∷ e)))
covers_iff e h = (covers_sound e h, covers_complete e h)

-- A rule cannot be evaded by the dotted spelling of a host, nor does it matter how the rule is
-- spelled: matching compares the hosts without their dot.
pub matches_host-dotted :
    (e h : Text)
    → undot_host e ≡ e
    → undot_host h ≡ h
    → (matches_host e (h ++ b'.' ∷ []) ≡ matches_host e h)
      × (matches_host (e ++ b'.' ∷ []) h ≡ matches_host e h)
unfolding matches_host
matches_host-dotted e h p q = (rw (undot-dotted h, q), rw (undot-dotted e, p))
