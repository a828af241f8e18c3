-- ===== src/Kdl/Parse/Progress.antt =====
-- How far the parser of app/src/kdl.ts moves on a value and on an entry of a node.
use zeolite.Prelude.{
  ℕ, ◌≡◌, refl, inl, inr, true, Option, [], ◌∷◌, arith, eqb, length, length-drop, Bool-cases,
  Option-cases, text_eq,
}
use zeolite.Prelude.Result.{Result, ◌>>=◌}
use zeolite.Text.{Text}
use zeolite.Kdl.{KdlValue}
use zeolite.Kdl.Lexer.{
  Cursor, KdlError, is_ident_start, skip_inline, parse_ident, string_loop, number_text,
  starts_number,
}
use zeolite.Kdl.Lexer.Steps.{
  Fits, left, left_by, Fits-bind, Fits-mono, left-skip_inline, parse_ident-Fits, string_loop-Fits,
  length-number_text,
}
use zeolite.Kdl.Parse.{
  parse_number, parse_keyword, parse_string, parse_value, Entries, push_arg, after_word,
  parse_entry,
}

module _ {N : Type 0} (of_text : Text → Option N) where
  parse_number-Fits :
      (c : Cursor) (x : ℕ) (s : Text)
      → c.rest ≡ x ∷ s
      → starts_number (x ∷ s) ≡ true
      → Fits left_by (length s) (parse_number of_text c)
  unfolding parse_number
  parse_number-Fits c x s e d = elim (Option-cases (number_text (x ∷ s))) [
    | inl q ↦ rw (e, q, Fits, parse_number) refl
    | inr ((text, r), q) ↦
        rw (e, q, Fits, parse_number)
          (elim (Option-cases (of_text text)) [
            | inl u ↦ rw (u, Fits) refl
            | inr (n, u) ↦ rw (u, Fits) (ground (arith, length-number_text x s text r d q))
          ])
  ]

  parse_keyword-Fits :
      (c : Cursor) (x : ℕ) (s : Text)
      → c.rest ≡ x ∷ s
      → Fits left_by (length s) (parse_keyword of_text c)
  unfolding parse_keyword
  parse_keyword-Fits c x s e = ground (arith, length-drop 5 c.rest, length-drop 6 c.rest)

  parse_string-Fits : (s : Text) (line : ℕ) → Fits left_by (length s) (parse_string of_text s line)
  parse_string-Fits s line =
      Fits-bind left_by left_by (length s) (length s) (string_loop line [] s) _
        (string_loop-Fits line [] s) (λ a h. h)

  parse_value-Fits :
      (c : Cursor) (x : ℕ) (s : Text)
      → c.rest ≡ x ∷ s
      → Fits left_by (length s) (parse_value of_text c)
  unfolding parse_value
  parse_value-Fits c x s e = elim (Bool-cases (eqb x b'"')) [
    | inl q ↦ rw (e, q, Fits, parse_value) (parse_string-Fits s c.line)
    | inr q ↦
        rw (e, q, Fits, parse_value)
          (elim (Bool-cases (eqb x b'#')) [
            | inl r ↦ rw (r, Fits) (parse_keyword-Fits c x s e)
            | inr r ↦
                rw (r, Fits)
                  (elim (Bool-cases (starts_number (x ∷ s))) [
                    | inl u ↦ rw (u, Fits) (parse_number-Fits c x s e u)
                    | inr u ↦
                        rw (u, Fits)
                          (elim (Bool-cases (is_ident_start x)) [
                            | inl v ↦
                                rw (v, Fits)
                                  (Fits-bind left_by left_by (length s) (length s) (parse_ident c) _
                                    (parse_ident-Fits c x s e) (λ a h. h))
                            | inr v ↦ rw (v, Fits) refl
                          ])
                  ])
          ])
  ]

  any_value-Fits : (c : Cursor) → Fits left_by (left c) (parse_value of_text c)
  unfolding parse_value
  any_value-Fits c = go c.rest refl
    where
      go : (t : Text) → c.rest ≡ t → Fits left_by (left c) (parse_value of_text c)
      go [] e = rw (e, Fits, parse_value) refl
      go (x ∷ s) e =
          Fits-mono left_by (length s) (left c) _ (ground (arith, e)) (parse_value-Fits c x s e)

  after_word-Fits :
      (entries : Entries of_text) (word : Text) (c : Cursor)
      → Fits left_by (left c) (after_word of_text entries (word, c))
  after_word-Fits entries word c = go (skip_inline c).rest refl
    where
      go :
          (t : Text)
          → (skip_inline c).rest ≡ t
          → Fits left_by (left c) (after_word of_text entries (word, c))
      go [] e = rw (e, Fits) (omega (arith, left-skip_inline c))
      go (x ∷ s) e = elim (Bool-cases (eqb x b'=')) [
        | inr q ↦ rw (e, q, Fits) (omega (arith, left-skip_inline c))
        | inl q ↦
            let at : Cursor = skip_inline (record { rest = s; line = (skip_inline c).line }) in
            rw (e, q, Fits)
              (Fits-bind left_by left_by (left at) (left c) (parse_value of_text at) _
                (any_value-Fits at)
                (λ (v, d) h. ground (
                  arith,
                  h,
                  e,
                  left-skip_inline c,
                  left-skip_inline (record { rest = s; line = (skip_inline c).line }),
                )))
      ]

  pub parse_entry-Fits :
      (entries : Entries of_text) (c : Cursor) (x : ℕ) (s : Text)
      → c.rest ≡ x ∷ s
      → Fits left_by (length s) (parse_entry of_text entries c)
  unfolding parse_entry
  parse_entry-Fits entries c x s e = elim (Bool-cases (eqb x b'"')) [
    | inl q ↦
        rw (e, q, Fits, parse_entry)
          (pushed (parse_string of_text s c.line) (parse_string-Fits s c.line))
    | inr q ↦
        rw (e, q, Fits, parse_entry)
          (elim (Bool-cases (eqb x b'#')) [
            | inl r ↦ rw (r, Fits) (pushed (parse_value of_text c) (parse_value-Fits c x s e))
            | inr r ↦
                rw (r, Fits)
                  (elim (Bool-cases (starts_number (x ∷ s))) [
                    | inl u ↦
                        rw (u, Fits) (pushed (parse_number of_text c) (parse_number-Fits c x s e u))
                    | inr u ↦
                        rw (u, Fits)
                          (elim (Bool-cases (is_ident_start x)) [
                            | inl v ↦
                                rw (v, Fits)
                                  (Fits-bind left_by left_by (length s) (length s) (parse_ident c)
                                    (after_word of_text entries) (parse_ident-Fits c x s e)
                                    (λ (word, d) h.
                                      Fits-mono left_by (left d) (length s) _ h
                                        (after_word-Fits entries word d)))
                            | inr v ↦ rw (v, Fits) refl
                          ])
                  ])
          ])
  ]
    where
      pushed :
          (m : Result KdlError (KdlValue N × Cursor))
          → Fits left_by (length s) m
          → Fits left_by (length s) (m >>= push_arg of_text entries)
      pushed m h =
          Fits-bind left_by left_by (length s) (length s) m (push_arg of_text entries) h (λ a k. k)
