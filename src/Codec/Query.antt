-- ===== src/Codec/Query.antt =====
-- The query routes of app/src/codec.ts: a handle token rides the search of a committed address whose path
-- is the real one.
pub mod Slashes
pub mod Commits
pub mod Reads
pub mod Rides
use zeolite.Prelude.{
  ℕ, ◌+◌, Bool, true, false, ◌&&◌, ◌||◌, not, Option, none, some, List, [], ◌∷◌, ◌++◌, ltb, eqb,
  ◌==◌, text_eq, is_some, length, drop, find, filter, if◌then◌else◌,
}
use zeolite.Text.{Text, txt, starts_with, split}
use zeolite.Url.{Url}
use zeolite.Codec.Token.{Utf8}
use zeolite.Codec.Route.{Routes, is_engine_path, is_engine_asset}
use zeolite.Codec.Handle.{
  encode_nav_handle, decode_nav_handle, decode_expired_nav_handle, decode_nav_handle_root,
}

abbrev pub navq_head : Text
navq_head = txt "zlNavh="

abbrev pub amp : ℕ
amp = b'&'

-- `ps.join("&")`.
unfoldable pub join : List Text → Text
join [] = []
join (p ∷ []) = p
join (p ∷ q ∷ ps) = p ++ amp ∷ join (q ∷ ps)

-- The search without its `?`.
unfoldable pub raw_search : Text → Text
raw_search [] = []
raw_search (c ∷ s) = if eqb c b'?' then s else c ∷ s

unfoldable pub query_handle_token : Text → Option Text
query_handle_token search =
    elim (find (λ part. starts_with part navq_head) (split amp (raw_search search))) [
      | none ↦ none
      | some part ↦ some (drop 7 part)
    ]

unfoldable pub query_handle_path_shaped : Routes → Text → Bool
query_handle_path_shaped r path =
    is_engine_asset path
    || (is_engine_path r path
        || (starts_with path (txt "/__zl_navh__")
            || (starts_with path (txt "/__zl_prel__")
                || (starts_with path (txt "/__zl_nav__")
                    || (starts_with path (txt "/zl-ext/")
                        || (starts_with path (txt "/zl-cs/")
                            || starts_with path (txt "/wisp/")))))))

-- A run of slashes behind the first one is written as escapes, and read back.
unfoldable pub escape_run : Text → Text
escape_run [] = []
escape_run (c ∷ s) = let rest = escape_run s in if eqb c b'/' then txt "%2F" ++ rest else c ∷ s

unfoldable pub escape_leading_slashes : Text → Text
escape_leading_slashes [] = []
escape_leading_slashes (c ∷ s) = if eqb c b'/' then c ∷ escape_run s else c ∷ s

unfoldable pub restore_run : Text → Text
restore_run (a ∷ b ∷ c ∷ s) =
    let rest = restore_run s in
    if eqb a b'%' && (eqb b b'2' && eqb c b'F') then b'/' ∷ rest else a ∷ b ∷ c ∷ s
restore_run s = s

unfoldable pub restore_leading_slashes : Text → Text
restore_leading_slashes [] = []
restore_leading_slashes (c ∷ s) = if eqb c b'/' then c ∷ restore_run s else c ∷ s

-- `new URL(o).origin === o`.
unfoldable pub origin_only : (Text → Option Url) → Text → Bool
origin_only parse_url o = elim (parse_url o) [ none ↦ false | some u ↦ u.origin == o ]

-- What the loop over the parts of a search has kept and found.
pub record Scan : Type 0 where
  pub keep : List Text
  pub origin : Option Text
  pub root : Option Text

unfoldable pub cleaned : List Text → Text
cleaned [] = []
cleaned (p ∷ ps) = b'?' ∷ join (p ∷ ps)

unfoldable pub scanned_handle : Text → Scan → Option (Text × Option Text)
scanned_handle path s = elim s.origin [
  | none ↦ none
  | some o ↦ some (o ++ (restore_leading_slashes path ++ cleaned s.keep), s.root)
]

module _ (utf8 : Utf8) (parse_url : Text → Option Url) (number : Text → Option ℕ) where
  unfoldable pub navq_engine_origin : Routes → ℕ → Text → Option Text
  navq_engine_origin r now token =
      elim (decode_nav_handle utf8 parse_url number r now false token) [
        | some o ↦ if origin_only parse_url o then some o else none
        | none ↦ elim (decode_expired_nav_handle utf8 parse_url number r now token) [
          | none ↦ none
          | some (o, _) ↦ if origin_only parse_url o then some o else none
        ]
      ]

  -- The origin that a live token names.
  unfoldable pub live_origin : Routes → ℕ → Text → Option Text
  live_origin r now token = elim (decode_nav_handle utf8 parse_url number r now false token) [
    | none ↦ none
    | some o ↦ if origin_only parse_url o then some o else none
  ]

  unfoldable pub kept_part : Routes → ℕ → Text → Bool
  kept_part r now part =
      if starts_with part navq_head
      then not (is_some (navq_engine_origin r now (drop 7 part)))
      else true

  unfoldable pub scan_part : Routes → ℕ → Text → Scan → Scan
  scan_part r now part s =
      if starts_with part navq_head
      then elim (live_origin r now (drop 7 part)) [
        | none ↦
            if is_some (navq_engine_origin r now (drop 7 part))
            then s
            else record s { keep = s.keep ++ part ∷ [] }
        | some o ↦ elim s.origin [
          | some _ ↦ s
          | none ↦ record s {
            origin = some o;
            root = decode_nav_handle_root utf8 parse_url number r (drop 7 part);
          }
        ]
      ]
      else record s { keep = s.keep ++ part ∷ [] }

  unfoldable pub scan_parts : Routes → ℕ → List Text → Scan → Scan
  scan_parts r now [] s = s
  scan_parts r now (part ∷ parts) s = scan_parts r now parts (scan_part r now part s)

  unfoldable pub decode_query_handle : Routes → ℕ → Url → Option (Text × Option Text)
  decode_query_handle r now u =
      if query_handle_path_shaped r u.pathname || raw_search u.search == []
      then none
      else scanned_handle u.pathname (
          scan_parts r now (split amp (raw_search u.search))
            (record { keep = []; origin = none; root = none }))

  unfoldable pub handle_route_shaped : Routes → ℕ → Url → Bool
  handle_route_shaped r now u =
      starts_with u.pathname (txt "/__zl_navh__/") || is_some (decode_query_handle r now u)

  -- The parts of a destination's search that stay.
  unfoldable pub kept_parts : Routes → ℕ → Text → List Text
  kept_parts r now search =
      if search == [] then [] else filter (kept_part r now) (split amp (raw_search search))

  -- The committed address: its path, its search and its hash.
  unfoldable pub build_query_handle_url : Routes → ℕ → ℕ → Text → Text → Option Text → Option Text
  build_query_handle_url r now ttl_ms nonce dest root =
      elim (encode_nav_handle utf8 parse_url number r now ttl_ms nonce dest root) [
        | none ↦ none
        | some token ↦ elim (parse_url dest) [
          | none ↦ none
          | some u ↦
              if query_handle_path_shaped r u.pathname
              then none
              else some (
                  escape_leading_slashes u.pathname
                  ++ (b'?' ∷ join (kept_parts r now u.search ++ (navq_head ++ token) ∷ [])
                      ++ u.hash))
        ]
      ]
