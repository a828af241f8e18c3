-- ===== src/Codec/Query/Reads.antt =====
-- The page that a committed query route was built for is read back.
use zeolite.Prelude.{
  ℕ, ◌+◌, ◌≡◌, refl, sym, ap, ◌∙◌, true, false, Option, none, some, List, [], ◌∷◌, ◌++◌, ◌==◌, All,
  Option-cases, inl, inr, all_below, arith, list_beq, text_eq,
}
use zeolite.Text.{Text, split, includes_unit}
use zeolite.Url.{Url}
use zeolite.Codec.{Bytes}
use zeolite.Codec.Base64.{letter, b64u_encode}
use zeolite.Codec.Fields.{Lacks, other_letter, b64u_encode-Lacks}
use zeolite.Codec.Token.{Utf8, keyed_token}
use zeolite.Codec.Route.{Routes}
use zeolite.Codec.Handle.{
  NavHandleInfo, bound_root, handle_payload, encode_nav_handle, decode_nav_handle,
  decode_nav_handle_info, decode_nav_handle_root,
}
use zeolite.Codec.Query.{
  navq_head, amp, join, raw_search, query_handle_path_shaped, escape_leading_slashes, origin_only,
  Scan, live_origin, scan_parts, cleaned, scanned_handle, decode_query_handle, kept_parts,
  build_query_handle_url,
}
use zeolite.Codec.Query.Slashes.{unescaped, restore-escape}
use zeolite.Codec.Query.Commits.{
  IsPart, split-join, Stays, scan_parts-kept, scan_part-token, kept_parts-Stays,
}

no_letter : all_below (other_letter amp) 64 ≡ true
unfolding all_below other_letter letter
no_letter = refl

-- A search that ends in a part of its own is not empty.
join_full : (ps : List Text) (c : ℕ) (t : Text) → (join (ps ++ (c ∷ t) ∷ []) == []) ≡ false
unfolding join list_beq
join_full [] c t = refl
join_full ([] ∷ []) c t = refl
join_full ((d ∷ p) ∷ []) c t = refl
join_full ([] ∷ q ∷ ps) c t = refl
join_full ((d ∷ p) ∷ q ∷ ps) c t = refl

parts_end : (ps : List Text) (t : Text) → All IsPart ps → IsPart t → All IsPart (ps ++ t ∷ [])
parts_end [] t v h = (h, tt)
parts_end (p ∷ ps) t (w, v) h = (w, parts_end ps t v h)

split-join_end :
    (ps : List Text) (t : Text)
    → All IsPart (ps ++ t ∷ [])
    → split amp (join (ps ++ t ∷ [])) ≡ ps ++ t ∷ []
split-join_end [] t v = split-join t [] v
split-join_end (p ∷ ps) t v = split-join p (ps ++ t ∷ []) v

raw_search_marked : (s : Text) → raw_search (b'?' ∷ s) ≡ s
unfolding raw_search
raw_search_marked s = refl

module _ (utf8 : Utf8) (parse_url : Text → Option Url) (number : Text → Option ℕ) (r : Routes) where
  -- A minted token is base64url.
  pub minted :
      (now ttl_ms : ℕ) (nonce dest : Text) (root : Option Text) (token : Text)
      → encode_nav_handle utf8 parse_url number r now ttl_ms nonce dest root ≡ some token
      → (bytes : Bytes) × (b64u_encode bytes ≡ token)
  unfolding encode_nav_handle
  minted now ttl_ms nonce dest root token e = elim (Option-cases r.route_key) [
    | inl k ↦ absurd (ground (arith, e, k))
    | inr (key, k) ↦ elim (Option-cases (parse_url dest)) [
      | inl p ↦ absurd (ground (arith, e, k, p))
      | inr (u, p) ↦ (
        keyed_token utf8 key (
            handle_payload utf8 parse_url number (now + ttl_ms) u.origin nonce
              (bound_root utf8 parse_url number root)),
        ground (arith, e, k, p),
      )
    ]
  ]

  encode_nav_handle-IsPart :
      (now ttl_ms : ℕ) (nonce dest : Text) (root : Option Text) (token : Text)
      → encode_nav_handle utf8 parse_url number r now ttl_ms nonce dest root ≡ some token
      → IsPart (navq_head ++ token)
  unfolding Lacks includes_unit
  encode_nav_handle-IsPart now ttl_ms nonce dest root token e =
      let (bytes, same) = minted now ttl_ms nonce dest root token e in
      rw (sym same) (b64u_encode-Lacks amp no_letter bytes)

  live_origin-some :
      (token : Text) (info : NavHandleInfo) (later : ℕ)
      → decode_nav_handle_info utf8 parse_url number r later false token ≡ some info
      → origin_only parse_url info.destination ≡ true
      → live_origin utf8 parse_url number r later token ≡ some info.destination
  unfolding live_origin decode_nav_handle
  live_origin-some token info later e o = ground (arith, e, o)

  root-some :
      (token : Text) (info : NavHandleInfo) (later : ℕ)
      → decode_nav_handle_info utf8 parse_url number r later false token ≡ some info
      → decode_nav_handle_root utf8 parse_url number r token ≡ info.root_client_id
  unfolding decode_nav_handle_root decode_nav_handle_info
  root-some token info later e = ground (arith, e)

  built :
      (now ttl_ms : ℕ) (nonce dest : Text) (root : Option Text) (token : Text) (u : Url)
      → encode_nav_handle utf8 parse_url number r now ttl_ms nonce dest root ≡ some token
      → parse_url dest ≡ some u
      → query_handle_path_shaped r u.pathname ≡ false
      → build_query_handle_url utf8 parse_url number r now ttl_ms nonce dest root
        ≡ some (
            escape_leading_slashes u.pathname
            ++ (b'?'
                  ∷ join
                      (kept_parts utf8 parse_url number r now u.search ++ (navq_head ++ token) ∷ [])
                ++ u.hash))
  unfolding build_query_handle_url
  built now ttl_ms nonce dest root token u e p s = ground (arith, e, p, s)

  scanned :
      (ps : List Text) (token : Text) (info : NavHandleInfo) (later : ℕ)
      → All (Stays utf8 parse_url number r later) ps
      → decode_nav_handle_info utf8 parse_url number r later false token ≡ some info
      → origin_only parse_url info.destination ≡ true
      → scan_parts utf8 parse_url number r later
          (ps ++ (navq_head ++ token) ∷ [])
          (record { keep = []; origin = none; root = none })
        ≡ record { keep = ps; origin = some info.destination; root = info.root_client_id }
  scanned ps token info later v e o =
      scan_parts-kept utf8 parse_url number r ps later
        (record { keep = []; origin = none; root = none }) (navq_head ++ token) v
      ∙ (scan_part-token utf8 parse_url number r token info.destination later ps
            (live_origin-some token info later e o)
          ∙ ap (λ root. record { keep = ps; origin = some info.destination; root = root })
              (root-some token info later e))

  decoded :
      (later : ℕ) (u : Url) (raw : Text) (s : Scan)
      → query_handle_path_shaped r u.pathname ≡ false
      → u.search ≡ b'?' ∷ raw
      → (raw == []) ≡ false
      → scan_parts utf8 parse_url number r later
          (split amp raw)
          (record { keep = []; origin = none; root = none })
        ≡ s
      → decode_query_handle utf8 parse_url number r later u ≡ scanned_handle u.pathname s
  unfolding decode_query_handle
  decoded later u raw s shape marked full e =
      rw (shape, marked, raw_search_marked raw, full, e) refl

  -- A query route that is built is the path and search of its destination with one token more; while
  -- the token is live it decodes to the token's origin with that path, the parts of that search that are
  -- not the engine's, and the token's root: if the URL parser splits the committed address as it was
  -- built, neither path is one of the engine's, no escaped slash leads the destination's path, and
  -- the token names an origin.
  pub decode_query_handle-build_query_handle_url :
      (now ttl_ms later : ℕ) (nonce dest token : Text) (root : Option Text) (u committed : Url)
      (info : NavHandleInfo)
      → encode_nav_handle utf8 parse_url number r now ttl_ms nonce dest root ≡ some token
      → decode_nav_handle_info utf8 parse_url number r later false token ≡ some info
      → origin_only parse_url info.destination ≡ true
      → parse_url dest ≡ some u
      → query_handle_path_shaped r u.pathname ≡ false
      → unescaped u.pathname ≡ true
      → query_handle_path_shaped r committed.pathname ≡ false
      → committed.pathname ≡ escape_leading_slashes u.pathname
      → committed.search
        ≡ b'?' ∷ join (kept_parts utf8 parse_url number r now u.search ++ (navq_head ++ token) ∷ [])
      → (build_query_handle_url utf8 parse_url number r now ttl_ms nonce dest root
          ≡ some (committed.pathname ++ (committed.search ++ u.hash)))
        × (decode_query_handle utf8 parse_url number r later committed
            ≡ some (
              info.destination
                  ++ (u.pathname ++ cleaned (kept_parts utf8 parse_url number r now u.search)),
              info.root_client_id,
            ))
  unfolding scanned_handle
  decode_query_handle-build_query_handle_url now ttl_ms later nonce dest token root u committed info
        minted_token live named p shape plain committed_shape path same_search =
      let parts = kept_parts utf8 parse_url number r now u.search in
      let (stay, whole) = kept_parts-Stays utf8 parse_url number r u.search now later in
      let last = encode_nav_handle-IsPart now ttl_ms nonce dest root token minted_token in
      let found : Scan = record {
        keep = parts;
        origin = some info.destination;
        root = info.root_client_id;
      } in
      let ends = split-join_end parts (navq_head ++ token) (parts_end parts _ whole last) in
      (
        rw (path, same_search) (built now ttl_ms nonce dest root token u minted_token p shape),
        decoded later committed (join (parts ++ (navq_head ++ token) ∷ [])) found committed_shape
              same_search (join_full parts _ _)
              (rw ends (scanned parts token info later stay live named))
            ∙ rw (path, restore-escape u.pathname plain) refl,
      )
