-- ===== src/Codec/Query/Rides.antt =====
-- Which parts of a page's search ride on a query route of app/src/codec.ts, and how it is read back.
use zeolite.Prelude.{
  ℕ, ◌≡◌, ◌⊎◌, inl, inr, sym, ap, ◌∙◌, subst, true, false, Option, none, some, List, [], ◌∷◌, ◌++◌,
  ◌==◌, ==_iff, drop, filter, Option-cases, Bool-cases, arith, text_eq,
}
use zeolite.Text.{Text, split, starts_with}
use zeolite.Cookies.Scope.{starts_with_sound}
use zeolite.Url.{Url}
use zeolite.Codec.Token.{Utf8}
use zeolite.Codec.Route.{Routes}
use zeolite.Codec.Handle.{
  NavHandleInfo, encode_nav_handle, decode_nav_handle_payload, decode_nav_handle_info,
  decode_nav_handle, decode_expired_nav_handle,
}
use zeolite.Codec.Query.{
  navq_head, amp, join, raw_search, query_handle_path_shaped, escape_leading_slashes, origin_only,
  cleaned, navq_engine_origin, kept_part, kept_parts, decode_query_handle, build_query_handle_url,
}
use zeolite.Codec.Query.Slashes.{unescaped}
use zeolite.Codec.Query.Reads.{decode_query_handle-build_query_handle_url}

module _ (utf8 : Utf8) (parse_url : Text → Option Url) (number : Text → Option ℕ) (r : Routes) where
  -- A part of the engine's own: `zlNavh=` and a token that a held key verifies, live or not, of an origin.
  unfoldable pub IsEnginePart : Text → Type 0
  IsEnginePart part =
      (token : Text) × (info : NavHandleInfo) × (part ≡ navq_head ++ token)
      × (decode_nav_handle_payload utf8 parse_url number r token ≡ some info)
      × (origin_only parse_url info.destination ≡ true)

  -- The second list is the first without the engine's parts, in order.
  unfoldable pub Rides : List Text → List Text → Type 0
  Rides [] kept = kept ≡ []
  Rides (p ∷ ps) kept =
      (IsEnginePart p × Rides ps kept)
      ⊎ ((¬ IsEnginePart p) × ((rest : List Text) × (kept ≡ p ∷ rest) × Rides ps rest))

  -- The parts of a search that ride: all but the engine's own.
  unfoldable pub IsRide : Text → List Text → Type 0
  IsRide search kept =
      ((search ≡ []) × (kept ≡ []))
      ⊎ ((¬ (search ≡ [])) × Rides (split amp (raw_search search)) kept)

  engine_origin-cases :
      (now : ℕ) (token : Text)
      → (navq_engine_origin utf8 parse_url number r now token ≡ none)
        ⊎ ((info : NavHandleInfo) × (decode_nav_handle_payload utf8 parse_url number r token
              ≡ some info)
            × (origin_only parse_url info.destination ≡ true))
  unfolding navq_engine_origin decode_nav_handle decode_expired_nav_handle decode_nav_handle_info
  engine_origin-cases now token =
      elim (Option-cases (decode_nav_handle_payload utf8 parse_url number r token)) [
        | inl n ↦ inl (ground (arith, n))
        | inr (info, e) ↦ elim (Bool-cases (origin_only parse_url info.destination)) [
          | inl o ↦ inr (info, e, o)
          | inr o ↦ inl (ground (arith, e, o))
        ]
      ]

  engine_origin-found :
      (now : ℕ) (token : Text) (info : NavHandleInfo)
      → decode_nav_handle_payload utf8 parse_url number r token ≡ some info
      → origin_only parse_url info.destination ≡ true
      → navq_engine_origin utf8 parse_url number r now token ≡ some info.destination
  unfolding navq_engine_origin decode_nav_handle decode_expired_nav_handle decode_nav_handle_info
  engine_origin-found now token info e o = ground (arith, e, o)

  kept_part-engine :
      (now : ℕ) (part : Text)
      → IsEnginePart part
      → kept_part utf8 parse_url number r now part ≡ false
  unfolding kept_part IsEnginePart starts_with
  kept_part-engine now part (token, info, e, p, o) =
      let found = engine_origin-found now token info p o in
      subst (λ q. kept_part utf8 parse_url number r now q ≡ false) (sym e) (ground (arith, found))

  kept_part-other :
      (now : ℕ) (part : Text)
      → ¬ IsEnginePart part
      → kept_part utf8 parse_url number r now part ≡ true
  unfolding kept_part IsEnginePart
  kept_part-other now part other = elim (Bool-cases (starts_with part navq_head)) [
    | inr e ↦ ground (arith, e)
    | inl e ↦
        let (rest, q) = starts_with_sound part navq_head e in
        elim (engine_origin-cases now rest) [
          | inl n ↦
              let here : drop 7 part ≡ rest = ap (λ s. drop 7 s) q in
              let none_here : navq_engine_origin utf8 parse_url number r now (drop 7 part) ≡ none =
                subst (λ s. navq_engine_origin utf8 parse_url number r now s ≡ none) (sym here) n in
              ground (arith, e, none_here)
          | inr (info, p, o) ↦ absurd (other (rest, info, q, p, o))
        ]
  ]

  Rides-filter :
      (now : ℕ) (ps kept : List Text)
      → Rides ps kept
      → filter (kept_part utf8 parse_url number r now) ps ≡ kept
  unfolding Rides
  Rides-filter now [] kept e = sym e
  Rides-filter now (p ∷ ps) kept (inl (engine, rides)) =
      rw (kept_part-engine now p engine) (Rides-filter now ps kept rides)
  Rides-filter now (p ∷ ps) kept (inr (other, (rest, e, rides))) =
      rw (kept_part-other now p other) (ap (λ l. p ∷ l) (Rides-filter now ps rest rides) ∙ sym e)

  IsRide-kept_parts :
      (now : ℕ) (search : Text) (kept : List Text)
      → IsRide search kept
      → kept_parts utf8 parse_url number r now search ≡ kept
  unfolding IsRide kept_parts
  IsRide-kept_parts now search kept (inl (e, n)) = rw ((==_iff search []).1 e) (sym n)
  IsRide-kept_parts now search kept (inr (full, rides)) = elim (Bool-cases (search == [])) [
    | inl empty ↦ absurd (full ((==_iff search []).0 empty))
    | inr more ↦ rw more (Rides-filter now (split amp (raw_search search)) kept rides)
  ]

  -- A query route is built as the path of its destination with the parts of the search that are not the
  -- engine's own tokens, live or expired, and with its new token; while the token opens to the
  -- destination's origin and a root it is read back as that origin, path and parts, and that root: if the URL
  -- parser splits the committed address as it was built, neither path is one of the engine's, no
  -- escaped slash leads the destination's path, and the origin is one that the parser keeps.
  pub decode_query_handle-Rides :
      (now ttl_ms later expires : ℕ) (nonce dest token : Text) (root bound : Option Text)
      (u committed : Url) (kept : List Text)
      → encode_nav_handle utf8 parse_url number r now ttl_ms nonce dest root ≡ some token
      → decode_nav_handle_info utf8 parse_url number r later false token
        ≡ some (record { destination = u.origin; root_client_id = bound; expires = expires })
      → origin_only parse_url u.origin ≡ true
      → parse_url dest ≡ some u
      → query_handle_path_shaped r u.pathname ≡ false
      → unescaped u.pathname ≡ true
      → IsRide u.search kept
      → query_handle_path_shaped r committed.pathname ≡ false
      → committed.pathname ≡ escape_leading_slashes u.pathname
      → committed.search ≡ b'?' ∷ join (kept ++ (navq_head ++ token) ∷ [])
      → (build_query_handle_url utf8 parse_url number r now ttl_ms nonce dest root
          ≡ some (committed.pathname ++ (committed.search ++ u.hash)))
        × (decode_query_handle utf8 parse_url number r later committed
            ≡ some (u.origin ++ (u.pathname ++ cleaned kept), bound))
  decode_query_handle-Rides now ttl_ms later expires nonce dest token root bound u committed kept
        minted_token live named p shape plain ride committed_shape path same_search =
      let parts : kept_parts utf8 parse_url number r now u.search ≡ kept =
        IsRide-kept_parts now u.search kept ride in
      subst
        (λ ps.
          (build_query_handle_url utf8 parse_url number r now ttl_ms nonce dest root
            ≡ some (committed.pathname ++ (committed.search ++ u.hash)))
          × (decode_query_handle utf8 parse_url number r later committed
              ≡ some (u.origin ++ (u.pathname ++ cleaned ps), bound)))
        parts
        (decode_query_handle-build_query_handle_url utf8 parse_url number r now ttl_ms later nonce
          dest token root u committed
          (record { destination = u.origin; root_client_id = bound; expires = expires })
          minted_token live named p shape plain committed_shape path
          (subst (λ ps. committed.search ≡ b'?' ∷ join (ps ++ (navq_head ++ token) ∷ []))
            (sym parts) same_search))
