-- ===== src/Codec/Handle/Expiry.antt =====
-- The number of a payload is read back.
use zeolite.Prelude.{ℕ, zero, suc, ◌≡◌, refl, true, some, [], ◌∷◌, ◌++◌, length, drop, all, arith}
use zeolite.Text.{Text, index_of, is_digit}

pub drop_past : (k : ℕ) (ds s : Text) → k ≡ suc (length ds) → drop k (ds ++ b':' ∷ s) ≡ s
drop_past zero ds s e = absurd (omega arith)
drop_past (suc k) [] s e = let e' : k ≡ 0 = omega arith in rw e' refl
drop_past (suc k) (d ∷ ds) s e = drop_past k ds s (omega arith)

pub index_of-digits :
    (ds s : Text) → all is_digit ds ≡ true → index_of b':' (ds ++ b':' ∷ s) ≡ some (length ds)
unfolding index_of
index_of-digits [] s h = refl
index_of-digits (d ∷ ds) s h = ground (arith, h, index_of-digits ds s)
