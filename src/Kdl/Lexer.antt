-- ===== src/Kdl/Lexer.antt =====
-- The scanner of app/src/kdl.ts. A cursor is the text from the position on, with the line. An error
-- keeps the line and which message it is; `out_of_fuel` stands for a loop that was not given enough.
pub mod Steps
use zeolite.Prelude.{
  ℕ, zero, suc, ◌+◌, Bool, true, false, not, ◌&&◌, ◌||◌, Option, none, some, List, [], ◌∷◌, ◌++◌,
  if◌then◌else◌, eqb, leb, length,
}
use zeolite.Prelude.Result.{Result, ok, err, ◌>>=◌, ◌>>◌, throw_if}
use zeolite.Text.{Text, is_digit}

pub record Cursor : Type 0 where
  pub rest : Text
  pub line : ℕ

pub data Message : Type 0 where
  unclosed_comment expected_name unclosed_string unknown_escape malformed_number malformed_keyword :
      Message
  unsupported_hash expected_value unexpected_character unclosed_brace unexpected_brace : Message
  out_of_fuel : Message

pub record KdlError : Type 0 where
  pub line : ℕ
  pub message : Message

abbrev pub fail : {A : Type 0} → Cursor → Message → Result KdlError A
fail c m = err (record { line = c.line; message = m })

abbrev pub newline : ℕ
newline = 10

-- `peek(c) === x`, and `c.src[c.pos + 1] === x`.
abbrev pub at_head : ℕ → Text → Bool
at_head x [] = false
at_head x (c ∷ s) = eqb c x

abbrev pub at_second : ℕ → Text → Bool
at_second x [] = false
at_second x (c ∷ s) = at_head x s

abbrev pub is_ident_start : ℕ → Bool
is_ident_start c =
    leb b'a' c && leb c b'z' || (leb b'A' c && leb c b'Z' || (eqb c b'_' || eqb c b'-'))

abbrev pub is_ident_char : ℕ → Bool
is_ident_char c = is_ident_start c || is_digit c

abbrev pub is_inline : ℕ → Bool
is_inline c = eqb c 32 || (eqb c 9 || eqb c 13)

-- The longest prefix whose characters pass the test, and what follows.
unfoldable pub span : (ℕ → Bool) → Text → Text × Text
span p [] = ([], [])
span p (c ∷ s) = let (a, b) = span p s in if p c then (c ∷ a, b) else ([], c ∷ s)

unfoldable pub skip_inline : Cursor → Cursor
unfolding span
skip_inline c = record c { rest = (span is_inline c.rest).1 }

-- The loop of `skipBlockComment`, after the opening; `depth` is one less than the source's.
unfoldable pub block_loop : ℕ → ℕ → Text → Result KdlError Cursor
block_loop depth line [] = fail (record { rest = []; line = line }) unclosed_comment
block_loop depth line (c ∷ []) =
    fail (record { rest = []; line = if eqb c newline then line + 1 else line }) unclosed_comment
block_loop depth line (c ∷ d ∷ s) = elim (eqb c b'/' && eqb d b'*') [
  | true ↦ block_loop (suc depth) line s
  | false ↦ elim (eqb c b'*' && eqb d b'/') [
    | true ↦ elim depth [
      | zero ↦ ok (record { rest = s; line = line })
      | suc n ↦ block_loop n line s
    ]
    | false ↦ block_loop depth (if eqb c newline then line + 1 else line) (d ∷ s)
  ]
]

-- `skipGap`
unfoldable pub gap_loop : ℕ → Cursor → Result KdlError Cursor
unfolding skip_inline block_loop
gap_loop zero c = fail c out_of_fuel
gap_loop (suc fuel) c =
    let at = skip_inline c in
    elim at.rest [
      | [] ↦ ok at
      | x ∷ s ↦ elim s [
        | [] ↦ ok at
        | y ∷ t ↦ elim (eqb x b'/' && eqb y b'*') [
          | true ↦ block_loop 0 at.line t >>= gap_loop fuel
          | false ↦ ok at
        ]
      ]
    ]

unfoldable pub skip_gap : Cursor → Result KdlError Cursor
unfolding gap_loop
skip_gap c = gap_loop (suc (length c.rest)) c

abbrev not_newline : ℕ → Bool
not_newline c = not (eqb c newline)

-- `skipSpace`
unfoldable pub space_loop : ℕ → Cursor → Result KdlError Cursor
unfolding skip_gap span
space_loop zero c = fail c out_of_fuel
space_loop (suc fuel) c = skip_gap c >>= λ at. elim at.rest [
  | [] ↦ ok at
  | x ∷ s ↦ elim (eqb x newline) [
    | true ↦ space_loop fuel (record { rest = s; line = at.line + 1 })
    | false ↦ elim (eqb x b'/' && at_head b'/' s) [
      | true ↦ space_loop fuel (record at { rest = (span not_newline (x ∷ s)).1 })
      | false ↦ ok at
    ]
  ]
]

unfoldable pub skip_space : Cursor → Result KdlError Cursor
unfolding space_loop
skip_space c = space_loop (suc (length c.rest)) c

unfoldable pub parse_ident : Cursor → Result KdlError (Text × Cursor)
unfolding span
parse_ident c = elim c.rest [
  | [] ↦ fail c expected_name
  | x ∷ s ↦
      if is_ident_start x
      then ok (x ∷ (span is_ident_char s).0, record c { rest = (span is_ident_char s).1 })
      else fail c expected_name
]

abbrev escape : ℕ → Option ℕ
escape e =
    if eqb e b'"'
    then some b'"'
    else if eqb e 92
    then some 92
    else if eqb e b'/'
    then some b'/'
    else if eqb e b'n'
    then some 10
    else if eqb e b't'
    then some 9
    else if eqb e b'r'
    then some 13
    else if eqb e b'b'
    then some 8
    else if eqb e b'f'
    then some 12
    else none

-- The loop of `parseString`, after the opening quote.
unfoldable pub string_loop : ℕ → Text → Text → Result KdlError (Text × Cursor)
string_loop line out [] = fail (record { rest = []; line = line }) unclosed_string
string_loop line out (c ∷ []) =
    if eqb c b'"'
    then ok (out, record { rest = []; line = line })
    else fail (record { rest = c ∷ []; line = line }) unclosed_string
string_loop line out (c ∷ e ∷ t) = elim (eqb c newline) [
  | true ↦ fail (record { rest = c ∷ e ∷ t; line = line }) unclosed_string
  | false ↦ elim (eqb c b'"') [
    | true ↦ ok (out, record { rest = e ∷ t; line = line })
    | false ↦ elim (eqb c 92) [
      | false ↦ string_loop line (out ++ c ∷ []) (e ∷ t)
      | true ↦ elim (eqb e newline) [
        | true ↦ fail (record { rest = c ∷ e ∷ t; line = line }) unclosed_string
        | false ↦ elim (escape e) [
          | none ↦ fail (record { rest = c ∷ e ∷ t; line = line }) unknown_escape
          | some x ↦ string_loop line (out ++ x ∷ []) t
        ]
      ]
    ]
  ]
]

-- `undefined`, or one of the characters that may follow a number or a keyword.
abbrev pub delimited : Text → Bool
delimited [] = true
delimited (c ∷ s) =
    eqb c 32
    || (eqb c 9
        || (eqb c 13
            || (eqb c 10
                || (eqb c b';' || (eqb c b'{' || (eqb c b'}' || (eqb c b'/' || eqb c b'=')))))))

-- `isDigit(ch) || (ch === "-" && isDigit(c.src[c.pos + 1]))`
abbrev pub starts_number : Text → Bool
starts_number [] = false
starts_number (c ∷ s) = is_digit c || eqb c b'-' && (elim s [ [] ↦ false | d ∷ t ↦ is_digit d ])

-- `-`, then digits.
abbrev number_sign : Text → Text × Text
number_sign [] = ([], [])
number_sign (c ∷ s) = if eqb c b'-' then (c ∷ [], s) else ([], c ∷ s)

-- `.` and digits, of which there must be one.
abbrev fraction : Text → Option (Text × Text)
fraction [] = some ([], [])
fraction (c ∷ s) =
    if eqb c b'.'
    then elim (span is_digit s).0 [ [] ↦ none | d ∷ ds ↦ some (c ∷ d ∷ ds, (span is_digit s).1) ]
    else some ([], c ∷ s)

abbrev exponent_sign : Text → Text × Text
exponent_sign [] = ([], [])
exponent_sign (c ∷ s) = if eqb c b'+' || eqb c b'-' then (c ∷ [], s) else ([], c ∷ s)

-- `e` or `E`, a sign and digits; without a digit none of it is taken.
abbrev exponent : Text → Text × Text
exponent [] = ([], [])
exponent (c ∷ s) =
    let (sign, r) = exponent_sign s in
    if eqb c b'e' || eqb c b'E'
    then elim (span is_digit r).0 [
      | [] ↦ ([], c ∷ s)
      | d ∷ ds ↦ (c ∷ (sign ++ d ∷ ds), (span is_digit r).1)
    ]
    else ([], c ∷ s)

-- The text of the number and what follows it.
unfoldable pub number_text : Text → Option (Text × Text)
unfolding span
number_text s =
    let (sign, r) = number_sign s in
    let (digits, t) = span is_digit r in
    elim (fraction t) [
      | none ↦ none
      | some (frac, u) ↦ let (expo, v) = exponent u in some (sign ++ (digits ++ (frac ++ expo)), v)
    ]
