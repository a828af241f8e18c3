-- ===== src/Policy/Compile.antt =====
-- `compilePolicy` of app/src/policy.ts. Each way to reject a document is an error of its own; the
-- source's messages carry the same data.
pub mod Laws
use zeolite.Prelude.{
  ℕ, Bool, true, false, not, ◌&&◌, ◌||◌, Option, none, some, List, [], ◌∷◌, ◌++◌, if◌then◌else◌,
  eqb, find, any, is_some, text_eq, ◌==◌,
}
use zeolite.Prelude.Maps.{get}
use zeolite.Prelude.Result.{Result, ok, err, ◌>>=◌, ◌>>◌, throw_if}
use zeolite.Text.{Text, txt, to_lower}
use zeolite.Kdl
use zeolite.Kdl.{KdlValue, str, num, bool, null, KdlNode, name, args, props, children}
use zeolite.Rules.{
  ResourceType, document, script, style, image, font, media, websocket, worker, manifest,
  eventsource, wasm, fetch, other, type_ok,
}
use zeolite.Policy.{PolicyRule, CompiledPolicy, Route, rewrite, native, relay, wisp}

pub data PolicyError (N : Type 0) : Type 0 where
  unexpected_node : Text → PolicyError N
  no_id : PolicyError N
  duplicate_id : Text → PolicyError N
  priority_not_number : Text → PolicyError N
  unexpected_property : Text → PolicyError N
  bad_match_property : Text → PolicyError N
  bad_match : Text → PolicyError N
  unexpected_child : Text → Text → PolicyError N
  unknown_type : Text → KdlValue N → PolicyError N
  bad_route : Text → PolicyError N
  bad_reason : Text → PolicyError N

-- `KNOWN_TYPES`
pub known_type : Text → Option ResourceType
known_type a =
    if a == txt "document"
    then some document
    else if a == txt "script"
    then some script
    else if a == txt "style"
    then some style
    else if a == txt "image"
    then some image
    else if a == txt "font"
    then some font
    else if a == txt "media"
    then some media
    else if a == txt "websocket"
    then some websocket
    else if a == txt "worker"
    then some worker
    else if a == txt "manifest"
    then some manifest
    else if a == txt "eventsource"
    then some eventsource
    else if a == txt "wasm"
    then some wasm
    else if a == txt "fetch"
    then some fetch
    else if a == txt "other"
    then some other
    else none

unfoldable pub route_of : Text → Option Route
route_of a =
    if a == txt "rewrite"
    then some rewrite
    else if a == txt "native"
    then some native
    else if a == txt "relay"
    then some relay
    else if a == txt "wisp"
    then some wisp
    else none

-- `types.add(a)` on a set.
abbrev pub add_type : ResourceType → List ResourceType → List ResourceType
add_type t ts = if type_ok (some ts) t then ts else ts ++ t ∷ []

abbrev lowered : Option Text → Option Text
lowered none = none
lowered (some h) = some (to_lower h)

module _ {N : Type 0} where
  unfoldable pub child : KdlNode N → Text → Option (KdlNode N)
  child n k = find (λ c. name c == k) (children n)

  abbrev first : List (KdlValue N) → Option (KdlValue N)
  first [] = none
  first (v ∷ vs) = some v

  unfoldable pub match_prop : Text → Option (KdlValue N) → Result (PolicyError N) (Option Text)
  match_prop id none = ok none
  match_prop id (some (str (c ∷ v))) = ok (some (c ∷ v))
  match_prop id (some v) = err (bad_match id)

  unfoldable pub rule_id : KdlNode N → Result (PolicyError N) Text
  rule_id n = elim (first (args n)) [
    | none ↦ err no_id
    | some v ↦ elim v [ str s ↦ elim s [ [] ↦ err no_id | c ∷ r ↦ ok (c ∷ r) ] | _ ↦ err no_id ]
  ]

  unfoldable pub rule_priority : Text → Option (KdlValue N) → Result (PolicyError N) (Option N)
  rule_priority id none = ok none
  rule_priority id (some (num v)) = ok (some v)
  rule_priority id (some v) = err (priority_not_number id)

  -- `match allows only host and path properties`
  abbrev foreign_match_key : Option (KdlNode N) → Bool
  foreign_match_key none = false
  foreign_match_key (some m) =
      any (λ (k, v). not (k == txt "host") && not (k == txt "path")) (props m)

  abbrev match_value : Option (KdlNode N) → Text → Option (KdlValue N)
  match_value none k = none
  match_value (some m) k = get k (props m)

  abbrev is_rule_child : KdlNode N → Bool
  is_rule_child c =
      name c == txt "match"
      || (name c == txt "types" || (name c == txt "route" || name c == txt "reason"))

  unfoldable pub check_children : Text → List (KdlNode N) → Result (PolicyError N) (Unit {0})
  check_children id [] = ok tt
  check_children id (c ∷ cs) =
      if is_rule_child c then check_children id cs else err (unexpected_child id (name c))

  pub collect_types :
      Text → List (KdlValue N) → List ResourceType → Result (PolicyError N) (List ResourceType)
  unfolding known_type
  collect_types id [] ts = ok ts
  collect_types id (str s ∷ vs) ts = elim (known_type s) [
    | none ↦ err (unknown_type id (str s))
    | some t ↦ collect_types id vs (add_type t ts)
  ]
  collect_types id (v ∷ vs) ts = err (unknown_type id v)

  unfoldable pub rule_types :
      Text → Option (KdlNode N) → Result (PolicyError N) (Option (List ResourceType))
  unfolding collect_types
  rule_types id none = ok none
  rule_types id (some t) = do
    ts ← collect_types id (args t) []
    ok (elim ts [ [] ↦ none | x ∷ xs ↦ some (x ∷ xs) ])

  unfoldable pub rule_route : Text → Option (KdlNode N) → Result (PolicyError N) Route
  unfolding route_of
  rule_route id none = err (bad_route id)
  rule_route id (some r) = elim (first (args r)) [
    | none ↦ err (bad_route id)
    | some v ↦ elim v [
      | str s ↦ elim (route_of s) [ none ↦ err (bad_route id) | some x ↦ ok x ]
      | _ ↦ err (bad_route id)
    ]
  ]

  unfoldable pub rule_reason : Text → Option (KdlNode N) → Result (PolicyError N) (Option Text)
  rule_reason id none = ok none
  rule_reason id (some r) = elim (first (args r)) [
    | none ↦ err (bad_reason id)
    | some v ↦ elim v [
      | str s ↦ elim s [ [] ↦ err (bad_reason id) | c ∷ t ↦ ok (some (c ∷ t)) ]
      | _ ↦ err (bad_reason id)
    ]
  ]

  -- The body of the loop for one node, after its id is known to be new. `nil` is the priority 0.
  unfoldable pub compile_rule : N → Text → KdlNode N → Result (PolicyError N) (PolicyRule N)
  unfolding rule_priority match_prop check_children rule_types rule_route rule_reason child
  compile_rule nil id n = do
    pr ← rule_priority id (get (txt "priority") (props n))
    throw_if (any (λ (k, v). not (k == txt "priority")) (props n)) (unexpected_property id)
    throw_if (foreign_match_key (child n (txt "match"))) (bad_match_property id)
    host ← match_prop id (match_value (child n (txt "match")) (txt "host"))
    path ← match_prop id (match_value (child n (txt "match")) (txt "path"))
    check_children id (children n)
    types ← rule_types id (child n (txt "types"))
    route ← rule_route id (child n (txt "route"))
    reason ← rule_reason id (child n (txt "reason"))
    ok (record {
      id = id;
      priority = elim pr [ none ↦ nil | some p ↦ p ];
      host = lowered host;
      path = path;
      types = types;
      reason = reason;
      route = route;
    })

  unfoldable pub compile_loop :
      N → List Text → List (KdlNode N) → Result (PolicyError N) (CompiledPolicy N)
  unfolding compile_rule rule_id
  compile_loop nil seen [] = ok []
  compile_loop nil seen (n ∷ ns) =
      let rest = λ (id : Text). compile_loop nil (seen ++ id ∷ []) ns in
      do
        throw_if (not (name n == txt "rule")) (unexpected_node (name n))
        id ← rule_id n
        throw_if (any (λ s. s == id) seen) (duplicate_id id)
        rule ← compile_rule nil id n
        rules ← rest id
        ok (rule ∷ rules)

  unfoldable pub compile_policy : N → List (KdlNode N) → Result (PolicyError N) (CompiledPolicy N)
  unfolding compile_loop
  compile_policy nil doc = compile_loop nil [] doc
