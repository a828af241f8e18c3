-- ===== src/Codec/Fields.antt =====
-- The fields that codec.ts joins by a separator are split apart again.
use zeolite.Prelude.{
  ℕ, ◌%◌, ◌≡◌, refl, Bool, true, false, not, List, [], ◌∷◌, ◌++◌, eqb, All, all_below, all_below-at,
  Bool-cases, inl, inr, arith,
}
use zeolite.Text.{Text, includes_unit, split}
use zeolite.Codec.{Bytes}
use zeolite.Codec.Base64.{letter, b64u_encode}

-- A text without the unit.
unfoldable pub Lacks : ℕ → Text → Type 0
Lacks c s = includes_unit c s ≡ false

pub Lacks-append : (c : ℕ) (a b : Text) → Lacks c a → Lacks c b → Lacks c (a ++ b)
unfolding Lacks includes_unit
Lacks-append c [] b p q = q
Lacks-append c (d ∷ a) b p q = ground (arith, p, Lacks-append c a b)

-- The value does not stand for the unit.
unfoldable pub other_letter : ℕ → ℕ → Bool
other_letter c v = not (eqb (letter v) c)

Lacks-letter :
    (c : ℕ)
    → all_below (other_letter c) 64 ≡ true
    → (v : ℕ) (s : Text) → Lacks c s
    → Lacks c (letter (v % 64) ∷ s)
unfolding Lacks includes_unit other_letter
Lacks-letter c t v s h = ground (arith, h, all_below-at (other_letter c) 64 (v % 64) t)

pub b64u_encode-Lacks :
    (c : ℕ) → all_below (other_letter c) 64 ≡ true → (bytes : Bytes) → Lacks c (b64u_encode bytes)
unfolding b64u_encode
b64u_encode-Lacks c t [] = unfold Lacks includes_unit in refl
b64u_encode-Lacks c t (b0 ∷ []) =
    Lacks-letter c t _ _ (Lacks-letter c t _ [] (unfold Lacks includes_unit in refl))
b64u_encode-Lacks c t (b0 ∷ b1 ∷ []) =
    Lacks-letter c t _ _
      (Lacks-letter c t _ _ (Lacks-letter c t _ [] (unfold Lacks includes_unit in refl)))
b64u_encode-Lacks c t (b0 ∷ b1 ∷ b2 ∷ bytes) = Lacks-letter c t _ _ (
    Lacks-letter c t _ _
      (Lacks-letter c t _ _ (Lacks-letter c t _ _ (b64u_encode-Lacks c t bytes))))

pub split_whole : (c : ℕ) (s : Text) → Lacks c s → split c s ≡ s ∷ []
unfolding Lacks includes_unit split
split_whole c [] h = refl
split_whole c (d ∷ s) h = ground (arith, h, split_whole c s)

split_open : (c : ℕ) (s : Text) → (w : Text) × (ws : List Text) × (split c s ≡ w ∷ ws)
unfolding split
split_open c [] = ([], [], refl)
split_open c (d ∷ s) =
    let (w, ws, e) = split_open c s in
    elim (Bool-cases (eqb d c)) [
      | inl same ↦ ([], w ∷ ws, ground (arith, e, same))
      | inr other ↦ (d ∷ w, ws, ground (arith, e, other))
    ]

pub split_next : (c : ℕ) (a b : Text) → Lacks c a → split c (a ++ c ∷ b) ≡ a ∷ split c b
unfolding Lacks includes_unit split
split_next c [] b h = let (w, ws, e) = split_open c b in ground (arith, e)
split_next c (d ∷ a) b h = ground (arith, h, split_next c a b)

pub split-All : (c : ℕ) (s : Text) → All (Lacks c) (split c s)
unfolding Lacks includes_unit split
split-All c [] = (refl, tt)
split-All c (d ∷ s) =
    let (w, ws, e) = split_open c s in
    let below = rw e at (split-All c s) in
    elim (Bool-cases (eqb d c)) [
      | inl same ↦ rw (e, same) (refl, below)
      | inr other ↦ rw (e, other) (ground (arith, other, below.0), below.1)
    ]
