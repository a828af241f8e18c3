-- ===== src/Codec/Query/Slashes.antt =====
-- A committed path is read back.
use zeolite.Prelude.{
  ◌≡◌, refl, ap, ◌∙◌, Bool-cases, inl, inr, Bool, true, false, not, [], ◌∷◌, ◌++◌, eqb, eqb_iff,
  if◌then◌else◌, arith,
}
use zeolite.Text.{Text, txt, starts_with}
use zeolite.Codec.Query.{escape_run, escape_leading_slashes, restore_run, restore_leading_slashes}

-- Behind its slashes the path does not begin with an escaped one.
unfoldable pub unescaped : Text → Bool
unescaped [] = true
unescaped (c ∷ s) =
    let rest = unescaped s in if eqb c b'/' then rest else not (starts_with (c ∷ s) (txt "%2F"))

restore_run-other : (s : Text) → starts_with s (txt "%2F") ≡ false → restore_run s ≡ s
unfolding restore_run starts_with
restore_run-other [] h = refl
restore_run-other (a ∷ []) h = refl
restore_run-other (a ∷ b ∷ []) h = refl
restore_run-other (a ∷ b ∷ c ∷ s) h = ground (arith, h)

restore_run_slash : (s : Text) → restore_run (txt "%2F" ++ s) ≡ b'/' ∷ restore_run s
unfolding restore_run
restore_run_slash s = refl

restore_run-escape_run : (s : Text) → unescaped s ≡ true → restore_run (escape_run s) ≡ s
unfolding escape_run unescaped
restore_run-escape_run [] h = unfold restore_run in refl
restore_run-escape_run (c ∷ s) h = elim (Bool-cases (eqb c b'/')) [
  | inl slash ↦
      let below = restore_run-escape_run s (ground (arith, h, slash)) in
      rw (slash, (eqb_iff c b'/').0 slash)
        (restore_run_slash (escape_run s) ∙ ap (λ t. b'/' ∷ t) below)
  | inr other ↦ rw other (restore_run-other (c ∷ s) (ground (arith, h, other)))
]

-- A path behind whose slashes no escaped slash stands is read back as it was.
pub restore-escape :
    (path : Text)
    → unescaped path ≡ true
    → restore_leading_slashes (escape_leading_slashes path) ≡ path
unfolding restore_leading_slashes escape_leading_slashes unescaped
restore-escape [] h = refl
restore-escape (c ∷ s) h = ground (arith, h, restore_run-escape_run s)
