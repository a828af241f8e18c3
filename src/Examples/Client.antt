-- ===== src/Examples/Client.antt =====
-- Runs of the handle routes of app/src/codec.ts, in a browser that resolves paths below one origin.
use zeolite.Prelude.{
  ℕ, ◌≡◌, refl, Bool, true, false, Option, none, some, List, [], ◌∷◌, ◌++◌, ◌==◌, text_eq,
  if◌then◌else◌,
}
use zeolite.Text.{Text, txt}
use zeolite.Url.{Url}
use zeolite.Examples.Codec.{latin, number, fresh, page_url}
use zeolite.Examples.Query.{page, page_at, parse, minted}
use zeolite.Codec.Handle.{NavHandleInfo, decode_nav_handle, decode_nav_handle_info}
use zeolite.Codec.Client.{Web, navh, token_and_rest, decode_nav_handle_path, build_nav_handle_url}
use zeolite.Codec.Challenge.{Params}
use zeolite.Codec.Client.Shown.{decode_nav_handle_path-build_nav_handle_url}
use zeolite.Codec.Client.Origin.{IsBound, decode_nav_handle_path-IsBound}

abbrev below : Text → Url
below rest = record page_url { pathname = b'/' ∷ rest }

unfoldable resolve : Text → Text → Option Url
resolve rest base = if base == txt "https://a.example/" then some (below rest) else none

abbrev web : Web
web = record {
  parse = parse;
  resolve = resolve;
  href = λ u. u.origin ++ u.pathname ++ u.search ++ u.hash;
  set_pathname = λ u p. record u { pathname = p };
  set_pathname-origin = λ u p. refl;
  decode_component = λ s. some s;
}

abbrev info : NavHandleInfo
info = record {
  destination = txt "https://a.example";
  root_client_id = some (txt "host-1");
  expires = 1500;
}

minted_live : decode_nav_handle_info latin parse number fresh 1400 false minted.0 ≡ some info
unfolding zeolite.Codec.Handle.Mint.Dated
minted_live = minted.2.0

-- A handle route of a.example that resolves.
shown_page :
    decode_nav_handle_path latin web number fresh 1400 false (minted.0 ++ txt "/%2Fx")
    ≡ some (txt "https://a.example//x")
unfolding parse resolve zeolite.Prelude.list_beq zeolite.Text.starts_with
    zeolite.Codec.Query.escape_leading_slashes zeolite.Codec.Query.escape_run
    zeolite.Codec.Query.Slashes.unescaped zeolite.Codec.Recover.after
    zeolite.Codec.Client.nav_marker_tail_dest zeolite.Codec.Client.marker_tail
    zeolite.Examples.simple_url zeolite.Text.split zeolite.Text.ends_with
shown_page =
    (decode_nav_handle_path-build_nav_handle_url latin web number fresh 1000 500 1400 (txt "n") page
      minted.0 (txt "%2Fx") (some (txt "host-1")) page_at (record page_url { pathname = txt "/" })
      (below (txt "%2Fx")) info minted.1 minted_live refl refl refl refl refl refl refl refl refl
      refl refl).1

decode_nav_handle_path-IsBound_example :
    (o : Text) × (decode_nav_handle latin parse number fresh 1400 false
        (token_and_rest (minted.0 ++ txt "/%2Fx")).0
      ≡ some o)
    × IsBound latin web number
        (token_and_rest (minted.0 ++ txt "/%2Fx")).1
        o
        (txt "https://a.example//x")
decode_nav_handle_path-IsBound_example =
    decode_nav_handle_path-IsBound latin web number fresh 1400 false (minted.0 ++ txt "/%2Fx")
      (txt "https://a.example//x") shown_page

-- A challenge of a.example that returns to `/`.
abbrev flat : Web
flat = record web { resolve = λ path base. some (record page_url { pathname = path }) }

abbrev params : Params
params = record {
  get = λ u name. some (txt "/");
  set = λ u name value. record u { search = txt "?redir=" ++ value };
}
