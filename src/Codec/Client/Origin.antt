-- ===== src/Codec/Client/Origin.antt =====
-- A handle route never leaves the origin that it was minted for.
use zeolite.Prelude.{
  ℕ, ◌≡◌, refl, ◌∙◌, Bool, Option, some, [], ◌∷◌, ◌++◌, ◌==◌, ==_iff, text_eq, is_some, ◌⊎◌, inl,
  inr, Option-cases, Bool-cases, arith,
}
use zeolite.Text.{Text}
use zeolite.Url.{Url}
use zeolite.Codec.Token.{Utf8}
use zeolite.Codec.Route.{Routes}
use zeolite.Codec.Handle.{decode_nav_handle}
use zeolite.Codec.Recover.{after}
use zeolite.Codec.Query.{restore_leading_slashes}
use zeolite.Codec.Client.{
  Web, navp, token_and_rest, nav_marker_tail_dest, peel, resolve_root, with_slash, resolve_tail,
  or_marked, peeled_tail, resolve_rest, decode_nav_handle_path,
}

some_inj : {a b : Text} → some a ≡ some b → a ≡ b
some_inj e = ground (arith, e)

module _ (utf8 : Utf8) (web : Web) (number : Text → Option ℕ) where
  -- The address of a page on the origin of `o`.
  unfoldable pub OnOrigin : Text → Text → Type 0
  OnOrigin o d =
      (u : Url) × (base : Url) × (web.parse o ≡ some base)
      × (u.origin ≡ base.origin)
      × (web.href u ≡ d)

  -- The destination of a marker in the text behind the token, which may be peeled.
  Marked : Text → Text → Type 0
  Marked rest d =
      (path : Text) × ((path ≡ rest) ⊎ (peel utf8 web number 4 rest ≡ some path))
      × (nav_marker_tail_dest utf8 path ≡ some d)

  pub IsBound : Text → Text → Text → Type 0
  IsBound rest o d = (d ≡ o) ⊎ (Marked rest d ⊎ OnOrigin o d)

  resolve_root-OnOrigin :
      (o cur d : Text) → resolve_root utf8 web number o cur ≡ some d → OnOrigin o d
  unfolding resolve_root OnOrigin
  resolve_root-OnOrigin o cur d e = elim (Option-cases (web.parse o)) [
    | inl p ↦ absurd (ground (arith, e, p))
    | inr (base, p) ↦ elim (Option-cases (web.resolve cur (base.origin ++ b'/' ∷ []))) [
      | inl q ↦ absurd (ground (arith, e, p, q))
      | inr (u, q) ↦ elim (Bool-cases (u.origin == base.origin)) [
        | inl same ↦
            (u, base, p, (==_iff u.origin base.origin).0 same, ground (arith, e, p, q, same))
        | inr other ↦ absurd (ground (arith, e, p, q, other))
      ]
    ]
  ]

  resolve_tail-OnOrigin :
      (o rest d : Text) → resolve_tail utf8 web number o rest ≡ some d → OnOrigin o d
  unfolding resolve_tail OnOrigin
  resolve_tail-OnOrigin o rest d e =
      elim (Option-cases (web.resolve rest (with_slash utf8 web number o))) [
        | inl q ↦ absurd (ground (arith, e, q))
        | inr (u, q) ↦ elim (Option-cases (web.parse o)) [
          | inl p ↦ absurd (ground (arith, e, p, q))
          | inr (base, p) ↦ elim (Bool-cases (u.origin == base.origin)) [
            | inl same ↦ (
              web.set_pathname u (restore_leading_slashes u.pathname),
              base,
              p,
              web.set_pathname-origin u _ ∙ (==_iff u.origin base.origin).0 same,
              ground (arith, e, p, q, same),
            )
            | inr other ↦ absurd (ground (arith, e, p, q, other))
          ]
        ]
      ]

  or_marked-some :
      (path d : Text) (otherwise : Option Text)
      → or_marked utf8 web number path otherwise ≡ some d
      → (nav_marker_tail_dest utf8 path ≡ some d) ⊎ (otherwise ≡ some d)
  unfolding or_marked
  or_marked-some path d otherwise e = ground (arith, e)

  peeled_tail-IsBound :
      (o rest d : Text)
      → peeled_tail utf8 web number o (peel utf8 web number 4 rest) ≡ some d
      → IsBound rest o d
  unfolding peeled_tail IsBound Marked
  peeled_tail-IsBound o rest d e = elim (Option-cases (peel utf8 web number 4 rest)) [
    | inl p ↦ absurd (ground (arith, e, p))
    | inr (cur, p) ↦
        let kept : or_marked utf8 web number cur (resolve_root utf8 web number o cur) ≡ some d =
          ground (arith, e, p) in
        elim (or_marked-some cur d _ kept) [
          | inl m ↦ inr (inl (cur, inr p, m))
          | inr n ↦ inr (inr (resolve_root-OnOrigin o cur d n))
        ]
  ]

  resolve_rest-IsBound :
      (o rest d : Text) → resolve_rest utf8 web number o rest ≡ some d → IsBound rest o d
  unfolding resolve_rest IsBound Marked
  resolve_rest-IsBound o rest d e = elim (Bool-cases (rest == [])) [
    | inl empty ↦ inl (ground (arith, e, empty))
    | inr full ↦ elim (Bool-cases (is_some (after navp rest))) [
      | inl stacked ↦ peeled_tail-IsBound o rest d (ground (arith, e, full, stacked))
      | inr flat ↦
          let kept : or_marked utf8 web number rest (resolve_tail utf8 web number o rest) ≡ some d =
            ground (arith, e, full, flat) in
          elim (or_marked-some rest d _ kept) [
            | inl m ↦ inr (inl (rest, inl refl, m))
            | inr n ↦ inr (inr (resolve_tail-OnOrigin o rest d n))
          ]
    ]
  ]

  -- A handle route that resolves has a token that decodes, and names the destination of that token, a
  -- page on its origin, or the destination of a marker that stands in the visible path, stacked
  -- markers peeled: no visible path leads the handle to another origin otherwise.
  pub decode_nav_handle_path-IsBound :
      (r : Routes) (now : ℕ) (expired : Bool) (tail d : Text)
      → decode_nav_handle_path utf8 web number r now expired tail ≡ some d
      → (o : Text) × (decode_nav_handle utf8 web.parse number r now expired (token_and_rest tail).0
          ≡ some o)
        × IsBound (token_and_rest tail).1 o d
  unfolding decode_nav_handle_path
  decode_nav_handle_path-IsBound r now expired tail d e =
      elim (Option-cases
        (decode_nav_handle utf8 web.parse number r now expired (token_and_rest tail).0)) [
          | inl n ↦ absurd (ground (arith, e, n))
          | inr (o, s) ↦
              (o, s, resolve_rest-IsBound o (token_and_rest tail).1 d (ground (arith, e, s)))
        ]
