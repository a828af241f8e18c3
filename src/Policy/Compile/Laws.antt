-- ===== src/Policy/Compile/Laws.antt =====
-- What a policy document that compiles is like.
use zeolite.Prelude.{
  ◌≡◌, refl, inl, inr, Bool, true, false, List, [], ◌∷◌, ◌++◌, map, arith, any, All, text_eq, ◌==◌,
  list_beq_iff,
}
use zeolite.Prelude.Result.{ok, throw_if, Result-cases}
use zeolite.Text.{Text, txt}
use zeolite.Kdl.{KdlNode, name}
use zeolite.Policy.{PolicyRule, CompiledPolicy}
use zeolite.Policy.Compile.{rule_id, compile_rule, compile_loop, compile_policy}

-- No text occurs twice, and none is among `seen`.
abbrev pub Distinct : List Text → List Text → Type 0
Distinct seen [] = Unit
Distinct seen (x ∷ xs) = (any (λ s. s == x) seen ≡ false) × Distinct (seen ++ x ∷ []) xs

throw_if-ok : {E : Type 0} (b : Bool) (e : E) → throw_if b e ≡ ok tt → b ≡ false
throw_if-ok b e h = ground arith

module _ {N : Type 0} where
  abbrev pub ids : CompiledPolicy N → List Text
  ids = map (λ r. r.id)

  compile_rule-id :
      (z : N) (id : Text) (n : KdlNode N) (r : PolicyRule N)
      → compile_rule z id n ≡ ok r
      → r.id ≡ id
  unfolding compile_rule
  compile_rule-id z id n r h = ground arith

  -- What the loop checked of the nodes that it compiled.
  abbrev Checked : List Text → List (KdlNode N) → CompiledPolicy N → Type 0
  Checked seen doc rules =
      (map (λ n. rule_id n) doc ≡ map (λ i. ok i) (ids rules))
      × Distinct seen (ids rules)
      × All (λ n. name n ≡ txt "rule") doc

  compile_loop-step :
      (z : N) (seen : List Text) (n : KdlNode N) (ns : List (KdlNode N)) (rules : CompiledPolicy N)
      → compile_loop z seen (n ∷ ns) ≡ ok rules
      → (id : Text) × (r : PolicyRule N) × (rs : CompiledPolicy N) × (rule_id n ≡ ok id)
        × (compile_rule z id n ≡ ok r)
        × (compile_loop z (seen ++ id ∷ []) ns ≡ ok rs)
        × (rules ≡ r ∷ rs)
        × ((name n == txt "rule") ≡ true)
        × (any (λ s. s == id) seen ≡ false)
  unfolding compile_loop
  compile_loop-step z seen n ns rules h = elim (Result-cases (rule_id n)) [
    | inr (e, no_id) ↦ ground arith
    | inl (id, has_id) ↦ elim (Result-cases (compile_rule z id n)) [
      | inr (e, bad) ↦ ground arith
      | inl (r, compiled) ↦ elim (Result-cases (compile_loop z (seen ++ id ∷ []) ns)) [
        | inr (e, bad) ↦ ground arith
        | inl (rs, rest) ↦
            (id, r, rs, has_id, compiled, rest, ground arith, ground arith, ground arith)
      ]
    ]
  ]

  compile_loop-Checked :
      (z : N) (seen : List Text) (doc : List (KdlNode N)) (rules : CompiledPolicy N)
      → compile_loop z seen doc ≡ ok rules
      → Checked seen doc rules
  unfolding compile_loop
  compile_loop-Checked z seen [] [] h = (refl, tt, tt)
  compile_loop-Checked z seen [] (r ∷ rs) h = cc
  compile_loop-Checked z seen (n ∷ ns) rules h =
      let (id, r, rs, has_id, compiled, rest, e, named, fresh) =
        compile_loop-step z seen n ns rules h in
      let (same, distinct, rule_nodes) = compile_loop-Checked z (seen ++ id ∷ []) ns rs rest in
      let same_id : r.id ≡ id = compile_rule-id z id n r compiled in
      rw e (
        cc (has_id, same_id, same),
        rw same_id (fresh, distinct),
        ((list_beq_iff (name n) (txt "rule")).0 named, rule_nodes),
      )

  -- A document that compiles has only rule nodes, and gives one rule for each, in order, under the
  -- node's own id; no two of them share an id.
  pub compile_policy-ids :
      (z : N) (doc : List (KdlNode N)) (rules : CompiledPolicy N)
      → compile_policy z doc ≡ ok rules
      → (map (λ n. rule_id n) doc ≡ map (λ i. ok i) (ids rules))
        × Distinct [] (ids rules)
        × All (λ n. name n ≡ txt "rule") doc
  unfolding compile_policy
  compile_policy-ids z doc rules h = compile_loop-Checked z [] doc rules h
