-- ===== src/Codec/Client/Shown.antt =====
-- A handle route shows the path of its destination, and reads it back.
use zeolite.Prelude.{
  ℕ, ◌≡◌, refl, sym, true, false, Option, none, some, [], ◌∷◌, ◌++◌, ◌==◌, ==_iff, ==_refl, text_eq,
  is_some, all_below, inl, inr, Bool-cases, arith,
}
use zeolite.Text.{Text, starts_with, includes_unit}
use zeolite.Url.{Url}
use zeolite.Codec.Base64.{letter}
use zeolite.Codec.Fields.{Lacks, other_letter, b64u_encode-Lacks}
use zeolite.Codec.Token.{Utf8}
use zeolite.Codec.Route.{Routes, until_slash}
use zeolite.Codec.Handle.{
  NavHandleInfo, encode_nav_handle, decode_nav_handle, decode_nav_handle_info,
}
use zeolite.Codec.Recover.{after}
use zeolite.Codec.Query.{escape_run, escape_leading_slashes, restore_leading_slashes}
use zeolite.Codec.Query.Slashes.{unescaped, restore-escape}
use zeolite.Codec.Query.Reads.{minted}
use zeolite.Codec.Client.{
  Web, navh, navp, slash_first, token_and_rest, nav_marker_tail_dest, with_slash, resolve_tail,
  or_marked, resolve_rest, decode_nav_handle_path, build_nav_handle_url,
}

no_slash : all_below (other_letter b'/') 64 ≡ true
unfolding all_below other_letter letter
no_slash = refl

until_slash-token :
    (token rest : Text) → Lacks b'/' token → until_slash (token ++ b'/' ∷ rest) ≡ some (token, rest)
unfolding until_slash Lacks includes_unit
until_slash-token [] rest h = refl
until_slash-token (c ∷ token) rest h = ground (arith, h, until_slash-token token rest)

escape_run-slash_first : (s : Text) → slash_first (escape_run s) ≡ false
unfolding escape_run slash_first
escape_run-slash_first [] = refl
escape_run-slash_first (c ∷ s) = ground arith

-- Behind the first slash of a shown path there is no second one.
escape-slash_first :
    (path rest : Text) → escape_leading_slashes path ≡ b'/' ∷ rest → slash_first rest ≡ false
unfolding escape_leading_slashes
escape-slash_first [] rest e = absurd (ground (arith, e))
escape-slash_first (c ∷ s) rest e = ground (arith, e, escape_run-slash_first s)

shown_root :
    (path rest : Text)
    → escape_leading_slashes path ≡ b'/' ∷ rest
    → (rest == []) ≡ false
    → (path == (b'/' ∷ [])) ≡ false
unfolding escape_leading_slashes escape_run
shown_root path rest e full = elim (Bool-cases (path == (b'/' ∷ []))) [
  | inr other ↦ other
  | inl root ↦
      let same = rw ((==_iff path (b'/' ∷ [])).0 root) at e in
      absurd (ground (arith, full, same, ==_refl rest))
]

module _ (utf8 : Utf8) (web : Web) (number : Text → Option ℕ) (r : Routes) where
  token_and_rest-token :
      (now ttl_ms : ℕ) (nonce dest token rest : Text) (root : Option Text)
      → encode_nav_handle utf8 web.parse number r now ttl_ms nonce dest root ≡ some token
      → token_and_rest (token ++ b'/' ∷ rest) ≡ (token, rest)
  unfolding token_and_rest
  token_and_rest-token now ttl_ms nonce dest token rest root e =
      let (bytes, same) = minted utf8 web.parse number r now ttl_ms nonce dest root token e in
      let lacks : Lacks b'/' token = rw (sym same) (b64u_encode-Lacks b'/' no_slash bytes) in
      ground (arith, until_slash-token token rest lacks)

  resolved :
      (o rest : Text) (base shown : Url)
      → web.parse o ≡ some base
      → web.resolve rest (with_slash utf8 web number o) ≡ some shown
      → shown.origin ≡ base.origin
      → resolve_tail utf8 web number o rest
        ≡ some (web.href (web.set_pathname shown (restore_leading_slashes shown.pathname)))
  unfolding resolve_tail
  resolved o rest base shown p q same =
      ground (arith, p, q, (==_iff shown.origin base.origin).1 same)

  rest_resolved :
      (o rest d : Text)
      → (rest == []) ≡ false
      → slash_first rest ≡ false
      → starts_with rest (b'\\' ∷ []) ≡ false
      → is_some (after navp rest) ≡ false
      → nav_marker_tail_dest utf8 rest ≡ none
      → resolve_tail utf8 web number o rest ≡ some d
      → resolve_rest utf8 web number o rest ≡ some d
  unfolding resolve_rest or_marked
  rest_resolved o rest d full flat plain unstacked unmarked e =
      ground (arith, full, flat, plain, unstacked, unmarked, e)

  path_resolved :
      (later : ℕ) (token rest d : Text) (info : NavHandleInfo)
      → token_and_rest (token ++ b'/' ∷ rest) ≡ (token, rest)
      → decode_nav_handle_info utf8 web.parse number r later false token ≡ some info
      → resolve_rest utf8 web number info.destination rest ≡ some d
      → decode_nav_handle_path utf8 web number r later false (token ++ b'/' ∷ rest) ≡ some d
  unfolding decode_nav_handle_path decode_nav_handle
  path_resolved later token rest d info parts live e = ground (arith, parts, live, e)

  built :
      (now ttl_ms : ℕ) (nonce dest token : Text) (root : Option Text) (u : Url)
      → encode_nav_handle utf8 web.parse number r now ttl_ms nonce dest root ≡ some token
      → web.parse dest ≡ some u
      → (u.pathname == (b'/' ∷ [])) ≡ false
      → build_nav_handle_url utf8 web number r now ttl_ms nonce dest root
        ≡ some
            (navh ++ (b'/' ∷ token ++ (escape_leading_slashes u.pathname ++ (u.search ++ u.hash))))
  unfolding build_nav_handle_url
  built now ttl_ms nonce dest token root u e p long = ground (arith, e, p, long)

  -- A handle route that is built shows the path of its destination behind the token, and while the
  -- token is live it decodes to the address that the browser makes of that path on the token's origin,
  -- with the destination's own path: if that path is not the root, no escaped slash or backslash leads
  -- it, no marker stands in it, and the browser resolves it below the origin as it is shown.
  pub decode_nav_handle_path-build_nav_handle_url :
      (now ttl_ms later : ℕ) (nonce dest token rest : Text) (root : Option Text)
      (u base shown : Url) (info : NavHandleInfo)
      → encode_nav_handle utf8 web.parse number r now ttl_ms nonce dest root ≡ some token
      → decode_nav_handle_info utf8 web.parse number r later false token ≡ some info
      → web.parse dest ≡ some u
      → escape_leading_slashes u.pathname ≡ b'/' ∷ rest
      → unescaped u.pathname ≡ true
      → (rest == []) ≡ false
      → starts_with rest (b'\\' ∷ []) ≡ false
      → is_some (after navp rest) ≡ false
      → nav_marker_tail_dest utf8 rest ≡ none
      → web.parse info.destination ≡ some base
      → web.resolve rest (with_slash utf8 web number info.destination) ≡ some shown
      → shown.origin ≡ base.origin
      → shown.pathname ≡ b'/' ∷ rest
      → (build_nav_handle_url utf8 web number r now ttl_ms nonce dest root
          ≡ some (navh ++ (b'/' ∷ token ++ (b'/' ∷ rest ++ (u.search ++ u.hash)))))
        × (decode_nav_handle_path utf8 web number r later false (token ++ b'/' ∷ rest)
            ≡ some (web.href (web.set_pathname shown u.pathname)))
  decode_nav_handle_path-build_nav_handle_url now ttl_ms later nonce dest token rest root u base
        shown info e live p path plain full straight unstacked unmarked q reached same kept =
      let parts = token_and_rest-token now ttl_ms nonce dest token rest root e in
      let back : restore_leading_slashes shown.pathname ≡ u.pathname =
        rw (kept, sym path) (restore-escape u.pathname plain) in
      let tail = rw back at (resolved info.destination rest base shown q reached same) in
      (
        rw path at
            (built now ttl_ms nonce dest token root u e p (shown_root u.pathname rest path full)),
        path_resolved later token rest _ info parts live (
            rest_resolved info.destination rest _ full (escape-slash_first u.pathname rest path)
              straight unstacked unmarked tail),
      )
