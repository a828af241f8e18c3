-- ===== src/Examples/Query.antt =====
-- Runs of the query routes of app/src/codec.ts.
use zeolite.Prelude.{
  ℕ, ◌+◌, ◌≡◌, refl, inl, inr, arith, Bool, true, false, Option, none, some, List, [], ◌∷◌, ◌++◌,
  ◌==◌, text_eq, if◌then◌else◌,
}
use zeolite.Text.{Text, txt}
use zeolite.Url.{Url}
use zeolite.Examples.{simple_url}
use zeolite.Examples.Codec.{latin, number, fresh, key_a, page_url, low_bytes}
use zeolite.Codec.Handle.{encode_nav_handle}
use zeolite.Codec.Handle.Mint.{Dated, encode_nav_handle-Dated}
use zeolite.Codec.Query.{navq_head, cleaned, decode_query_handle, build_query_handle_url}
use zeolite.Codec.Query.Rides.{IsEnginePart, Rides, IsRide, decode_query_handle-Rides}

abbrev pub page : Text
page = txt "https://a.example//x?p=1"

abbrev pub page_at : Url
page_at = record page_url { pathname = txt "//x"; search = txt "?p=1" }

-- A URL parser that knows one page with a search.
unfoldable pub parse : Text → Option Url
parse t = if t == page then some page_at else simple_url t

pub minted :
    (token : Text) × (encode_nav_handle latin parse number fresh 1000 500
        (txt "n")
        page
        (some (txt "host-1"))
      ≡ some token)
    × Dated latin parse number fresh token
        (record {
          destination = txt "https://a.example";
          root_client_id = some (txt "host-1");
          expires = 1000 + 500;
        })
        1400
unfolding parse simple_url low_bytes zeolite.Text.split zeolite.Codec.Handle.mintable_dest
    zeolite.Prelude.list_beq zeolite.Codec.Fields.Lacks zeolite.Text.includes_unit
    zeolite.Text.starts_with zeolite.Codec.Handle.bound_root zeolite.Codec.Handle.valid_root
    zeolite.Codec.Handle.Reads.Bindable zeolite.Numbers.decimal zeolite.Numbers.print
    zeolite.Codec.Handle.handle_payload zeolite.Codec.Handle.root_binding
    zeolite.Codec.Base64.b64u_encode zeolite.Codec.Base64.letter
minted =
    encode_nav_handle-Dated latin parse number fresh key_a [] 1000 500 1400 (txt "n") page
      (some (txt "host-1")) (some (txt "host-1")) page_at refl refl refl refl refl refl refl refl
      refl (refl, refl) refl refl

abbrev committed : Url
committed = record page_url {
  pathname = txt "/%2Fx";
  search = txt "?p=1&" ++ (navq_head ++ minted.0);
}

-- The one part of the page's search is none of the engine's.
page-IsRide : IsRide latin parse number fresh (txt "?p=1") (txt "p=1" ∷ [])
unfolding IsRide Rides IsEnginePart zeolite.Text.split zeolite.Codec.Query.raw_search
    zeolite.Text.starts_with
page-IsRide = inr (
  (λ e. ground (arith, e)),
  inr ((λ (token, info, e, p, o). ground (arith, e)), ([], refl, refl)),
)

decode_query_handle-Rides_example :
    (build_query_handle_url latin parse number fresh 1000 500 (txt "n") page (some (txt "host-1"))
      ≡ some (committed.pathname ++ (committed.search ++ [])))
    × (decode_query_handle latin parse number fresh 1400 committed
        ≡ some (txt "https://a.example//x?p=1", some (txt "host-1")))
unfolding parse zeolite.Codec.Handle.Mint.Dated zeolite.Prelude.list_beq simple_url low_bytes
    zeolite.Codec.Query.origin_only zeolite.Text.split zeolite.Codec.Query.query_handle_path_shaped
    zeolite.Codec.Route.is_engine_asset zeolite.Codec.Route.is_engine_path zeolite.Text.starts_with
    zeolite.Codec.Query.Slashes.unescaped zeolite.Codec.Query.escape_leading_slashes
    zeolite.Codec.Query.escape_run zeolite.Codec.Query.join zeolite.Codec.Query.kept_parts
    zeolite.Codec.Query.raw_search zeolite.Codec.Query.kept_part cleaned
decode_query_handle-Rides_example =
    decode_query_handle-Rides latin parse number fresh 1000 500 1400 (1000 + 500) (txt "n") page
      minted.0 (some (txt "host-1")) (some (txt "host-1")) page_at committed (txt "p=1" ∷ [])
      minted.1 minted.2.0 refl refl refl refl page-IsRide refl refl refl
