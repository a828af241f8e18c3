-- ===== src/Extensions/Permissions/Globs.antt =====
-- What a path pattern matches, as a relation.
use zeolite.Prelude.{
  ℕ, ◌≡◌, ◌↔◌, inl, inr, refl, ap, Bool, true, [], ◌∷◌, ◌++◌, eqb, if◌then◌else◌, Bool-cases, arith,
}
use zeolite.Text.{Text}
use zeolite.Extensions.Permissions.{some_end, glob}

-- The text is the pattern with each `*` replaced by some text.
unfoldable pub Globs : Text → Text → Type 0
Globs [] s = s ≡ []
Globs (c ∷ pat) s =
    if eqb c b'*'
    then ((gap : Text) × (rest : Text) × (s ≡ gap ++ rest) × Globs pat rest)
    else ((rest : Text) × (s ≡ c ∷ rest) × Globs pat rest)

-- A gap and a rest that passes.
Ends : (Text → Bool) → Text → Type 0
Ends f s = (gap : Text) × (rest : Text) × (s ≡ gap ++ rest) × (f rest ≡ true)

some_end-Ends : (f : Text → Bool) (s : Text) → some_end f s ≡ true → Ends f s
unfolding some_end Ends
some_end-Ends f [] h = ([], [], refl, h)
some_end-Ends f (c ∷ s) h = elim (Bool-cases (f (c ∷ s))) [
  | inl here ↦ ([], c ∷ s, refl, here)
  | inr later ↦
      let (gap, rest, e, p) = some_end-Ends f s (ground (arith, h, later)) in
      (c ∷ gap, rest, ap (λ t. c ∷ t) e, p)
]

Ends-some_end :
    (f : Text → Bool) (gap rest : Text) → f rest ≡ true → some_end f (gap ++ rest) ≡ true
unfolding some_end
Ends-some_end f [] [] p = p
Ends-some_end f [] (c ∷ rest) p = ground (arith, p)
Ends-some_end f (c ∷ gap) rest p = ground (arith, Ends-some_end f gap rest p)

glob-Globs : (pat s : Text) → glob pat s ≡ true → Globs pat s
unfolding glob Globs Ends
glob-Globs [] [] h = refl
glob-Globs [] (d ∷ s) h = absurd (ground (arith, h))
glob-Globs (c ∷ pat) [] h = elim (Bool-cases (eqb c b'*')) [
  | inl star ↦ rw star ([], [], refl, glob-Globs pat [] (ground (arith, h, star)))
  | inr other ↦ absurd (ground (arith, h, other))
]
glob-Globs (c ∷ pat) (d ∷ s) h = elim (Bool-cases (eqb c b'*')) [
  | inl star ↦
      let (gap, rest, e, p) = some_end-Ends (glob pat) (d ∷ s) (ground (arith, h, star)) in
      rw star (gap, rest, e, glob-Globs pat rest p)
  | inr other ↦ rw other (s, ground (arith, h, other), glob-Globs pat s (ground (arith, h, other)))
]

star_glob :
    (pat s : Text) (c : ℕ)
    → eqb c b'*' ≡ true
    → some_end (glob pat) s ≡ true
    → glob (c ∷ pat) s ≡ true
unfolding glob some_end
star_glob pat [] c star h = ground (arith, star, h)
star_glob pat (d ∷ s) c star h = ground (arith, star, h)

Globs-glob : (pat s : Text) → Globs pat s → glob pat s ≡ true
unfolding glob Globs
Globs-glob [] s h = rw h refl
Globs-glob (c ∷ pat) s h = elim (Bool-cases (eqb c b'*')) [
  | inl star ↦
      let (gap, rest, e, g) = rw star at h in
      let below = Ends-some_end (glob pat) gap rest (Globs-glob pat rest g) in
      rw e (star_glob pat (gap ++ rest) c star below)
  | inr other ↦
      let (rest, e, g) = rw other at h in rw e (ground (arith, other, Globs-glob pat rest g))
]

-- The matcher decides the relation.
pub glob_iff : (pat s : Text) → (glob pat s ≡ true) ↔ Globs pat s
glob_iff pat s = (glob-Globs pat s, Globs-glob pat s)
