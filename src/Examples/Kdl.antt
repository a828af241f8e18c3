-- ===== src/Examples/Kdl.antt =====
-- The KDL parser on a small document, with a number, a property, a comment and a block.
use zeolite.Prelude.{ℕ, ◌≡◌, refl, false, Option, none, some, [], ◌∷◌, if◌then◌else◌, all, list_beq}
use zeolite.Prelude.Maps.{get, set}
use zeolite.Prelude.Result.{ok}
use zeolite.Text.{Text, txt, starts_with, is_digit}
use zeolite.Numbers.{decimal}
use zeolite.Kdl.{node, str, num, nil, cons}
use zeolite.Kdl.Lexer.{
  skip_inline, skip_gap, skip_space, gap_loop, space_loop, block_loop, span, parse_ident,
  string_loop, number_text,
}
use zeolite.Kdl.Parse.{
  parse_kdl, node_loop, node_turn, children_loop, children_turn, parse_entry, parse_value,
  parse_number,
}
use zeolite.Kdl.Parse.Fuel.{lacks_fuel, parse_kdl-ends}

-- `Number` on digits, and NaN on everything else.
abbrev read : Text → Option ℕ
read s = if all is_digit s then some (decimal s) else none

abbrev source : Text
source = txt "rule \"one\" priority=5 /* a note */ { route wisp; }"

parsed :
    parse_kdl read source
    ≡ ok (
        cons
          (node
            (txt "rule")
            (str (txt "one") ∷ [])
            ((txt "priority", num 5) ∷ [])
            (cons (node (txt "route") (str (txt "wisp") ∷ []) [] nil) nil))
          nil)
unfolding parse_kdl node_loop node_turn children_loop children_turn parse_entry parse_value
    parse_number skip_inline skip_gap skip_space gap_loop space_loop block_loop span parse_ident
    string_loop number_text starts_with get set list_beq decimal
parsed = refl

parse_kdl-ends_example : lacks_fuel (parse_kdl read source) ≡ false
parse_kdl-ends_example = parse_kdl-ends read source
