-- ===== src/Kdl/Parse/Fuel.antt =====
-- The parser of app/src/kdl.ts ends: its loops are given enough fuel, whatever the text.
use zeolite.Prelude.{
  ℕ, zero, suc, ◌<◌, ◌≡◌, refl, inl, inr, Bool, false, Option, [], ◌∷◌, arith, eqb, length,
  Bool-cases, text_eq,
}
use zeolite.Prelude.Result.{Result, ok, err}
use zeolite.Text.{Text}
use zeolite.Kdl.{KdlNodes, nil}
use zeolite.Kdl.Lexer.{Cursor, KdlError, fail, unexpected_brace, skip_gap, skip_space, parse_ident}
use zeolite.Kdl.Lexer.Steps.{
  burnt, Fits, left, left_by, Fits-bind, Fits-mono, skip_gap-Fits, skip_space-Fits,
  parse_ident-Fits,
}
use zeolite.Kdl.Parse.Progress.{parse_entry-Fits}
use zeolite.Kdl.Parse.{
  snoc_nodes, Entries, parse_entry, close_brace, ends_node, node_turn, children_turn, no_entries,
  node_loop, children_loop, parse_kdl,
}

-- A loop of the parser has run out of fuel.
abbrev pub lacks_fuel : {A : Type 0} → Result KdlError A → Bool
lacks_fuel (ok a) = false
lacks_fuel (err e) = burnt e.message

not_burnt : {A : Type 0} (m : Result KdlError A) → Fits (λ a. 0) 0 m → lacks_fuel m ≡ false
not_burnt (ok a) h = refl
not_burnt (err e) h = h

module _ {N : Type 0} (of_text : Text → Option N) where
  -- Both loops, on `fuel`: what they read after one step is shorter.
  abbrev NodeFits : ℕ → Type 0
  NodeFits fuel =
      (name : Text) (e : Entries of_text) (ns : KdlNodes N) (c : Cursor)
      → left c < fuel
      → Fits left_by (left c) (node_loop of_text fuel name e ns c)

  abbrev ChildrenFits : ℕ → Type 0
  ChildrenFits fuel =
      (ns : KdlNodes N) (c : Cursor)
      → left c < fuel
      → Fits left_by (left c) (children_loop of_text fuel ns c)

  close_brace-Fits :
      (ns : KdlNodes N) (c : Cursor) → Fits left_by (left c) (close_brace of_text (ns, c))
  close_brace-Fits ns c = go c.rest refl
    where
      go : (t : Text) → c.rest ≡ t → Fits left_by (left c) (close_brace of_text (ns, c))
      go [] e = rw (e, Fits) refl
      go (x ∷ s) e = elim (Bool-cases (eqb x b'}')) [
        | inl q ↦ rw (e, q, Fits) (ground (arith, e))
        | inr q ↦ rw (e, q, Fits) refl
      ]

  node_turn-Fits :
      (fuel : ℕ)
      → NodeFits fuel
      → ChildrenFits fuel
      → (name : Text) (e : Entries of_text) (ns : KdlNodes N) (at : Cursor) → left at < suc fuel
      → (t : Text) → at.rest ≡ t
      → Fits left_by (left at) (
          node_turn of_text (node_loop of_text fuel name) (children_loop of_text fuel) name e ns at)
  unfolding node_turn
  node_turn-Fits fuel nodes kids name e ns at h [] q = rw (q, Fits, node_turn) (omega arith)
  node_turn-Fits fuel nodes kids name e ns at h (x ∷ s) q =
      let inner : Cursor = record at { rest = s } in
      let shorter : left inner < left at = ground (arith, q) in
      elim (Bool-cases (ends_node of_text (x ∷ s))) [
        | inl a ↦ rw (q, a, Fits, node_turn) (omega arith)
        | inr a ↦
            rw (q, a, Fits, node_turn)
              (elim (Bool-cases (eqb x b';')) [
                | inl b ↦ rw (q, b, Fits) (ground (arith, q))
                | inr b ↦
                    rw (q, b, Fits)
                      (elim (Bool-cases (eqb x b'{')) [
                        | inl d ↦
                            rw (d, Fits)
                              (Fits-bind left_by left_by (left inner) (left at) _ _
                                (Fits-bind left_by left_by (left inner) (left inner)
                                  (children_loop of_text fuel nil inner) (close_brace of_text)
                                  (kids nil inner (omega arith))
                                  (λ (ms, k) l.
                                    Fits-mono left_by (left k) (left inner) _ l
                                      (close_brace-Fits ms k)))
                                (λ (ms, k) l.
                                  Fits-mono left_by (left k) (left at) _ (omega arith)
                                    (nodes name e ms k (omega arith))))
                        | inr d ↦
                            rw (d, Fits)
                              (Fits-bind left_by left_by (length s) (left at)
                                (parse_entry of_text e at) _ (parse_entry-Fits of_text e at x s q)
                                (λ (e', k) l.
                                  Fits-mono left_by (left k) (left at) _ (omega arith)
                                    (nodes name e' ns k (omega arith))))
                      ])
              ])
      ]

  children_turn-Fits :
      (fuel : ℕ)
      → NodeFits fuel
      → ChildrenFits fuel
      → (ns : KdlNodes N) (at : Cursor) → left at < suc fuel
      → (t : Text) → at.rest ≡ t
      → Fits left_by (left at) (
          children_turn of_text
            (λ name d. node_loop of_text fuel name (no_entries of_text) nil d)
            (children_loop of_text fuel)
            ns
            at)
  unfolding children_turn
  children_turn-Fits fuel nodes kids ns at h [] q = rw (q, Fits, children_turn) (omega arith)
  children_turn-Fits fuel nodes kids ns at h (x ∷ s) q =
      let shorter : length s < left at = ground (arith, q) in
      elim (Bool-cases (eqb x b'}')) [
        | inl a ↦ rw (q, a, Fits, children_turn) (ground (arith, q))
        | inr a ↦
            rw (q, a, Fits, children_turn)
              (Fits-bind left_by left_by (length s) (left at) _ _
                (Fits-bind left_by left_by (length s) (length s) (parse_ident at) _
                  (parse_ident-Fits at x s q)
                  (λ (name, k) l.
                    Fits-mono left_by (left k) (length s) _ l
                      (nodes name (no_entries of_text) nil k (omega arith))))
                (λ (n, k) l.
                  Fits-mono left_by (left k) (left at) _ (omega arith)
                    (kids (snoc_nodes ns n) k (omega arith))))
      ]

  loops-Fits : (fuel : ℕ) → NodeFits fuel × ChildrenFits fuel
  unfolding node_loop children_loop
  loops-Fits zero = ((λ name e ns c h. absurd (omega arith)), λ ns c h. absurd (omega arith))
  loops-Fits (suc fuel) =
      let (nodes, kids) = loops-Fits fuel in
      (
        (λ name e ns c h.
            Fits-bind left left_by (left c) (left c) (skip_gap c) _ (skip_gap-Fits c) (λ at k.
              Fits-mono left_by (left at) (left c) _ k
                (node_turn-Fits fuel nodes kids name e ns at (omega arith) at.rest refl))),
        λ ns c h.
            Fits-bind left left_by (left c) (left c) (skip_space c) _ (skip_space-Fits c) (λ at k.
              Fits-mono left_by (left at) (left c) _ k
                (children_turn-Fits fuel nodes kids ns at (omega arith) at.rest refl)),
      )

  top-Fits :
      (ns : KdlNodes N) (c : Cursor) (t : Text)
      → c.rest ≡ t
      → Fits {A = KdlNodes N}
          (λ m. 0)
          0
          (elim c.rest [ [] ↦ ok ns | x ∷ s ↦ fail c unexpected_brace ])
  top-Fits ns c [] e = rw (e, Fits) (omega arith)
  top-Fits ns c (x ∷ s) e = rw (e, Fits) refl

  -- Whatever the text, the parser ends with its nodes or with one of the source's errors: the fuel that
  -- it is given, one more than the text is long, is enough for every loop, block comments, gaps and
  -- nested nodes included.
  pub parse_kdl-ends : (source : Text) → lacks_fuel (parse_kdl of_text source) ≡ false
  unfolding parse_kdl
  parse_kdl-ends source =
      let start : Cursor = record { rest = source; line = 1 } in
      let ends =
        Fits-bind left_by (λ m. 0) (length source) 0
          (children_loop of_text (suc (length source)) nil start) _
          ((loops-Fits (suc (length source))).1 nil start (omega arith))
          (λ (ns, c) k. top-Fits ns c c.rest refl) in
      not_burnt (parse_kdl of_text source) ends
