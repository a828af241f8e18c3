-- ===== src/Kdl.antt =====
-- app/src/kdl.ts: the nodes of a parsed KDL document. The children hold the scanner and the parser.
pub mod Lexer
pub mod Parse
use zeolite.Prelude.{Bool, List, [], ◌∷◌, text_eq}
use zeolite.Text.{Text}

-- `N` is the type of numbers. Identifiers stand as strings, as in the source.
pub data KdlValue (N : Type 0) : Type 0 where
  str : Text → KdlValue N
  num : N → KdlValue N
  bool : Bool → KdlValue N
  null : KdlValue N

-- A node and its children, each list of children as a type of the block.
mutual
  pub data KdlNode (N : Type 0) : Type 0 where
    node : Text → List (KdlValue N) → List (Text × KdlValue N) → KdlNodes N → KdlNode N

  pub data KdlNodes (N : Type 0) : Type 0 where
    nil : KdlNodes N
    cons : KdlNode N → KdlNodes N → KdlNodes N

module _ {N : Type 0} where
  abbrev pub name : KdlNode N → Text
  name (node n a p c) = n

  abbrev pub args : KdlNode N → List (KdlValue N)
  args (node n a p c) = a

  abbrev pub props : KdlNode N → List (Text × KdlValue N)
  props (node n a p c) = p

  abbrev pub nodes : KdlNodes N → List (KdlNode N)
  nodes nil = []
  nodes (cons n ns) = n ∷ nodes ns

  abbrev pub children : KdlNode N → List (KdlNode N)
  children (node n a p c) = nodes c
