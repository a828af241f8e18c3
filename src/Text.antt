-- ===== src/Text.antt =====
-- Texts of the source as lists of UTF-16 code units, and the String methods that the engine uses.
-- `to_lower` is `toLowerCase` on ASCII.
use Prim.Native.Char.{code}
use Prim.Native.String.{String}
use zeolite.Prelude.{
  ℕ, suc, ◌+◌, Bool, true, false, ◌&&◌, ◌||◌, Option, none, some, List, [], ◌∷◌, map, leb, eqb,
  ◌==◌, if◌then◌else◌, any, text_eq,
}

abbrev pub Text : Type 0
Text = List ℕ

-- The code units of an ASCII literal.
abbrev pub txt : String → Text
txt String.[] = []
txt (String.◌∷◌ c s) = code c ∷ txt s

unfoldable pub starts_with : Text → Text → Bool
starts_with s [] = true
starts_with [] (p ∷ ps) = false
starts_with (c ∷ s) (p ∷ ps) = eqb c p && starts_with s ps

-- `s.endsWith(t)`: some suffix of `s` is `t`.
unfoldable pub ends_with : Text → Text → Bool
ends_with [] t = [] == t
ends_with (c ∷ s) t = (c ∷ s) == t || ends_with s t

-- `s.includes(t)`.
unfoldable pub includes : Text → Text → Bool
includes [] t = starts_with [] t
includes (c ∷ s) t = starts_with (c ∷ s) t || includes s t

unfoldable pub includes_unit : ℕ → Text → Bool
includes_unit u s = any (λ c. eqb c u) s

-- `s.indexOf(u)` of one code unit, `none` for -1.
unfoldable pub index_of : ℕ → Text → Option ℕ
index_of u [] = none
index_of u (c ∷ s) =
    let rest = index_of u s in
    if eqb c u then some 0 else elim rest [ none ↦ none | some i ↦ some (suc i) ]

-- `s.lastIndexOf(u)`.
unfoldable pub last_index_of : ℕ → Text → Option ℕ
last_index_of u [] = none
last_index_of u (c ∷ s) = elim (last_index_of u s) [
  | some i ↦ some (suc i)
  | none ↦ if eqb c u then some 0 else none
]

abbrev pub lower_unit : ℕ → ℕ
lower_unit c = if leb b'A' c && leb c b'Z' then c + 32 else c

unfoldable pub to_lower : Text → Text
to_lower s = map lower_unit s

-- The white space and line ends that `trim` removes.
abbrev pub is_space : ℕ → Bool
is_space c =
    leb 9 c && leb c 13
    || (eqb c 32
        || (eqb c 0xA0
            || (eqb c 0x1680
                || (leb 0x2000 c && leb c 0x200A
                    || (eqb c 0x2028
                        || (eqb c 0x2029
                            || (eqb c 0x202F
                                || (eqb c 0x205F || (eqb c 0x3000 || eqb c 0xFEFF)))))))))

unfoldable pub trim_start : Text → Text
trim_start [] = []
trim_start (c ∷ s) = let rest = trim_start s in if is_space c then rest else c ∷ s

unfoldable pub trim_end : Text → Text
trim_end [] = []
trim_end (c ∷ s) = elim (trim_end s) [ [] ↦ if is_space c then [] else c ∷ [] | d ∷ r ↦ c ∷ d ∷ r ]

unfoldable pub trim : Text → Text
unfolding trim_start trim_end
trim s = trim_end (trim_start s)

-- `s.split(u)` at one code unit.
unfoldable pub split : ℕ → Text → List Text
split u [] = [] ∷ []
split u (c ∷ s) = elim (split u s) [
  | [] ↦ [] ∷ []
  | w ∷ ws ↦ if eqb c u then [] ∷ w ∷ ws else (c ∷ w) ∷ ws
]

abbrev pub is_digit : ℕ → Bool
is_digit c = leb b'0' c && leb c b'9'
