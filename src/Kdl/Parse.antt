-- ===== src/Kdl/Parse.antt =====
-- The recursive descent parser of app/src/kdl.ts, on fuel. `of_text` is `Number`, `none` for NaN.
-- A node's properties are a map in insertion order.
pub mod Progress
pub mod Fuel
use zeolite.Prelude.{
  ℕ, zero, suc, ◌+◌, Bool, true, false, not, ◌&&◌, ◌||◌, Option, none, some, List, [], ◌∷◌, ◌++◌,
  if◌then◌else◌, eqb, length, drop, text_eq,
}
use zeolite.Prelude.Maps.{set}
use zeolite.Prelude.Result.{Result, ok, err, ◌>>=◌, ◌>>◌, throw_if}
use zeolite.Text.{Text, txt, starts_with, is_digit}
use zeolite.Kdl.{KdlValue, str, num, bool, null, KdlNode, node, KdlNodes, nil, cons}
use zeolite.Kdl.Lexer.{
  Cursor, KdlError, fail, malformed_number, malformed_keyword, unsupported_hash, expected_value,
  unexpected_character, unclosed_brace, unexpected_brace, out_of_fuel, newline, at_head, at_second,
  is_ident_start, skip_inline, skip_gap, skip_space, parse_ident, string_loop, delimited,
  number_text, starts_number,
}

abbrev pub snoc_nodes : {N : Type 0} → KdlNodes N → KdlNode N → KdlNodes N
snoc_nodes nil n = cons n nil
snoc_nodes (cons m ms) n = cons m (snoc_nodes ms n)

module _ {N : Type 0} (of_text : Text → Option N) where
  unfoldable pub parse_number : Cursor → Result KdlError (KdlValue N × Cursor)
  parse_number c = elim (number_text c.rest) [
    | none ↦ fail c malformed_number
    | some (text, r) ↦ elim (of_text text) [
      | none ↦ fail c malformed_number
      | some n ↦ if delimited r then ok (num n, record c { rest = r }) else fail c malformed_number
    ]
  ]

  -- One keyword at the head, which must end at a delimiter.
  abbrev keyword : Text → KdlValue N → Cursor → Result KdlError (KdlValue N × Cursor)
  keyword word v c =
      let r = drop (length word) c.rest in
      if delimited r then ok (v, record c { rest = r }) else fail c malformed_keyword

  pub parse_keyword : Cursor → Result KdlError (KdlValue N × Cursor)
  parse_keyword c =
      if starts_with c.rest (txt "#true")
      then keyword (txt "#true") (bool true) c
      else if starts_with c.rest (txt "#false")
      then keyword (txt "#false") (bool false) c
      else if starts_with c.rest (txt "#null")
      then keyword (txt "#null") null c
      else fail c unsupported_hash

  abbrev pub parse_string : Text → ℕ → Result KdlError (KdlValue N × Cursor)
  parse_string s line = string_loop line [] s >>= λ (t, c). ok (str t, c)

  unfoldable pub parse_value : Cursor → Result KdlError (KdlValue N × Cursor)
  parse_value c = elim c.rest [
    | [] ↦ fail c expected_value
    | x ∷ s ↦
        if eqb x b'"'
        then parse_string s c.line
        else if eqb x b'#'
        then parse_keyword c
        else if starts_number (x ∷ s)
        then parse_number c
        else if is_ident_start x
        then (parse_ident c >>= λ (w, d). ok (str w, d))
        else fail c expected_value
  ]

  -- The arguments and properties of a node so far.
  pub record Entries : Type 0 where
    pub args : List (KdlValue N)
    pub props : List (Text × KdlValue N)

  abbrev pub push_arg : Entries → KdlValue N × Cursor → Result KdlError (Entries × Cursor)
  push_arg e (v, c) = ok (record e { args = e.args ++ v ∷ [] }, c)

  -- After a name: a property if `=` follows, else an argument.
  abbrev pub after_word : Entries → Text × Cursor → Result KdlError (Entries × Cursor)
  after_word e (word, c) =
      let at = skip_inline c in
      elim at.rest [
        | [] ↦ push_arg e (str word, at)
        | x ∷ s ↦
            if eqb x b'='
            then (parse_value (skip_inline (record at { rest = s })) >>= λ (v, d).
                ok (record e { props = set word v e.props }, d))
            else push_arg e (str word, at)
      ]

  unfoldable pub parse_entry : Entries → Cursor → Result KdlError (Entries × Cursor)
  parse_entry e c = elim c.rest [
    | [] ↦ fail c unexpected_character
    | x ∷ s ↦
        if eqb x b'"'
        then parse_string s c.line >>= push_arg e
        else if eqb x b'#'
        then parse_value c >>= push_arg e
        else if starts_number (x ∷ s)
        then parse_number c >>= push_arg e
        else if is_ident_start x
        then parse_ident c >>= after_word e
        else fail c unexpected_character
  ]

  -- `peek(c) !== "}"` after a block, and the brace.
  abbrev pub close_brace : KdlNodes N × Cursor → Result KdlError (KdlNodes N × Cursor)
  close_brace (ns, c) = elim c.rest [
    | [] ↦ fail c unclosed_brace
    | x ∷ s ↦ if eqb x b'}' then ok (ns, record c { rest = s }) else fail c unclosed_brace
  ]

  abbrev pub ends_node : Text → Bool
  ends_node [] = true
  ends_node (x ∷ s) = eqb x newline || (eqb x b'/' && at_head b'/' s || eqb x b'}')

  abbrev pub no_entries : Entries
  no_entries = record { args = []; props = [] }

  -- One turn of the loop of `parseNode`, after the gap: `again` goes on with the node and `block` reads
  -- the children.
  unfoldable pub node_turn :
      (Entries → KdlNodes N → Cursor → Result KdlError (KdlNode N × Cursor))
      → (KdlNodes N → Cursor → Result KdlError (KdlNodes N × Cursor))
      → Text
      → Entries
      → KdlNodes N
      → Cursor
      → Result KdlError (KdlNode N × Cursor)
  node_turn again block name e children at = elim (ends_node at.rest) [
    | true ↦ ok (node name e.args e.props children, at)
    | false ↦ elim at.rest [
      | [] ↦ ok (node name e.args e.props children, at)
      | x ∷ s ↦ elim (eqb x b';') [
        | true ↦ ok (node name e.args e.props children, record at { rest = s })
        | false ↦ elim (eqb x b'{') [
          | true ↦ (block nil (record at { rest = s }) >>= close_brace) >>= λ (ns, d). again e ns d
          | false ↦ parse_entry e at >>= λ (e', d). again e' children d
        ]
      ]
    ]
  ]

  -- One turn of the loop of `parseChildren`, after the space.
  unfoldable pub children_turn :
      (Text → Cursor → Result KdlError (KdlNode N × Cursor))
      → (KdlNodes N → Cursor → Result KdlError (KdlNodes N × Cursor))
      → KdlNodes N
      → Cursor
      → Result KdlError (KdlNodes N × Cursor)
  children_turn read again ns at = elim at.rest [
    | [] ↦ ok (ns, at)
    | x ∷ s ↦ elim (eqb x b'}') [
      | true ↦ ok (ns, at)
      | false ↦
          (parse_ident at >>= λ (name, d). read name d) >>= λ (n, d). again (snoc_nodes ns n) d
    ]
  ]

  unfoldable mutual
    -- `parseNode` from the end of the name on, and `parseChildren`.
    pub node_loop : ℕ → Text → Entries → KdlNodes N → Cursor → Result KdlError (KdlNode N × Cursor)
    node_loop zero name e children c = fail c out_of_fuel
    node_loop (suc fuel) name e children c =
        skip_gap c >>= node_turn (node_loop fuel name) (children_loop fuel) name e children

    pub children_loop : ℕ → KdlNodes N → Cursor → Result KdlError (KdlNodes N × Cursor)
    children_loop zero ns c = fail c out_of_fuel
    children_loop (suc fuel) ns c =
        skip_space c
        >>= children_turn (λ name d. node_loop fuel name no_entries nil d) (children_loop fuel) ns

  -- The top level reads nodes to the end of the text; a closing brace there is an error.
  unfoldable pub parse_kdl : Text → Result KdlError (KdlNodes N)
  parse_kdl source =
      children_loop (suc (length source)) nil (record { rest = source; line = 1 }) >>= λ (ns, c).
      elim c.rest [ [] ↦ ok ns | x ∷ s ↦ fail c unexpected_brace ]
