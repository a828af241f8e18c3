-- ===== src/Examples/CrossOrigin.antt =====
-- Runs of app/src/origin.ts, app/src/cors.ts and app/src/foreign.ts.
use zeolite.Prelude.{
  ℕ, ◌≡◌, ◌↔◌, refl, Bool, true, none, some, List, [], ◌∷◌, ◌==◌, text_eq, any, arith,
  if◌then◌else◌,
}
use zeolite.Prelude.Maps.{get}
use zeolite.Text.{Text, txt}
use zeolite.Examples.{simple_url}
use zeolite.Examples.Codec.{latin, number, fresh, page_url, appended}
use zeolite.Codec.Client.{Web}
use zeolite.CrossOrigin.{sender_virtual_origin}
use zeolite.CrossOrigin.Sender.{IsSender, sender_virtual_origin-IsSender}
use zeolite.CrossOrigin.Cors.{Headers, allow_origin}
use zeolite.CrossOrigin.Foreign.{
  ForeignRequest, preflight, classify_foreign, IsProxied, classify_foreign-IsProxied,
}

abbrev page : Text
page = txt "https://www.a.example/x"

abbrev target : Text
target = txt "https://a.example/y"

abbrev engine : Text
engine = txt "https://e.example"

-- A client whose address is a route of the engine, with text behind its token.
abbrev web : Web
web = record {
  parse = simple_url;
  resolve = λ path base. some (record page_url { origin = engine; pathname = path });
  href = λ u. u.origin;
  set_pathname = λ u p. record u { pathname = p };
  set_pathname-origin = λ u p. refl;
  decode_component = λ s. some s;
}

sender_found :
    sender_virtual_origin latin web number fresh 1000 (some appended) engine
    ≡ some (txt "https://a.b")
unfolding sender_virtual_origin zeolite.Codec.Challenge.filled zeolite.Codec.Route.encode_dest
    zeolite.Prelude.list_beq zeolite.CrossOrigin.client_dest zeolite.Codec.Client.decode_client_url
    zeolite.Codec.Client.decode_client_url_no_hash zeolite.Text.starts_with
    zeolite.Codec.Query.decode_query_handle zeolite.Codec.Query.query_handle_path_shaped
    zeolite.Codec.Route.is_engine_asset zeolite.Codec.Route.is_engine_path
    zeolite.Codec.Base64.b64u_encode zeolite.Codec.Token.keyed_token zeolite.Codec.Token.iv_of
    zeolite.Codec.Token.dest_mac zeolite.Codec.Siphash.le_bytes zeolite.Codec.Client.decode_route
    zeolite.Codec.Client.with_search zeolite.Codec.Route.decode_path
    zeolite.Codec.Query.scanned_handle zeolite.Codec.Recover.unwrap_dest
    zeolite.CrossOrigin.web_page simple_url zeolite.Text.split
    zeolite.Codec.Client.nav_marker_tail_dest zeolite.Codec.Route.open_with zeolite.Text.index_of
    zeolite.Codec.Base64.with_byte zeolite.Codec.Route.tail_bytes zeolite.Codec.Base64.b64u_decode
    zeolite.Examples.Codec.up_to zeolite.Codec.Route.decode_legacy_route
    zeolite.Codec.Route.two_segments zeolite.Codec.Route.until_slash
    zeolite.Codec.Recover.unwrap_hops zeolite.Codec.Route.before_query zeolite.Codec.Base64.letter
    zeolite.Codec.Siphash.siphash24 zeolite.Codec.Siphash.sipround zeolite.Codec.Siphash.rotl64
    zeolite.Codec.Siphash.absorb_all zeolite.Examples.Codec.low_bytes zeolite.Codec.Siphash.absorb
    zeolite.Codec.Siphash.le64 zeolite.Codec.Token.cipher zeolite.Codec.Token.stream_byte
    zeolite.Codec.Token.keystream_block zeolite.Codec.Base64.decode_bits zeolite.Codec.Base64.digit
    zeolite.Codec.Recover.recover_path zeolite.Codec.Recover.after
    zeolite.Codec.Recover.recover_tail zeolite.Codec.Base64.b64u_decode_lenient
    zeolite.Codec.Client.before_hash zeolite.Codec.Client.decode_nav_handle_path
    zeolite.Codec.Client.http_text zeolite.Codec.Client.marker_tail zeolite.Codec.Client.or_marked
    zeolite.Codec.Client.peel zeolite.Codec.Client.peeled_tail zeolite.Codec.Client.resolve_rest
    zeolite.Codec.Client.resolve_root zeolite.Codec.Client.resolve_tail
    zeolite.Codec.Client.slash_first zeolite.Codec.Client.token_and_rest
    zeolite.Codec.Client.unslash zeolite.Codec.Handle.decode_expired_nav_handle
    zeolite.Codec.Handle.decode_nav_handle zeolite.Codec.Handle.decode_nav_handle_info
    zeolite.Codec.Handle.decode_nav_handle_payload zeolite.Codec.Handle.decode_nav_handle_root
    zeolite.Codec.Handle.mintable_dest zeolite.Codec.Handle.read_fields
    zeolite.Codec.Handle.read_payload zeolite.Codec.Handle.read_root zeolite.Codec.Handle.try_key
    zeolite.Codec.Handle.try_keys zeolite.Codec.Handle.valid_root zeolite.Codec.Query.cleaned
    zeolite.Codec.Query.join zeolite.Codec.Query.live_origin zeolite.Codec.Query.navq_engine_origin
    zeolite.Codec.Query.origin_only zeolite.Codec.Query.raw_search
    zeolite.Codec.Query.restore_leading_slashes zeolite.Codec.Query.restore_run
    zeolite.Codec.Query.scan_part zeolite.Codec.Query.scan_parts zeolite.Codec.Recover.gate_text
    zeolite.Codec.Recover.letters_first zeolite.Codec.Recover.recover_bytes
    zeolite.Codec.Recover.recover_with zeolite.Codec.Recover.try_length
    zeolite.Codec.Recover.try_lengths zeolite.Codec.Route.encode_dest_legacy
    zeolite.Codec.Route.is_keyed zeolite.Codec.Route.open_tail zeolite.Codec.Token.decipher
    zeolite.Codec.Token.fold_diff zeolite.Codec.Token.is_http zeolite.Codec.Token.keyed_decode
    zeolite.Codec.Token.keyed_payload zeolite.Codec.Token.mac_equals zeolite.Codec.Token.verified
    get zeolite.Prelude.Maps.set zeolite.Text.ends_with
sender_found = refl

sender_virtual_origin-IsSender_example :
    IsSender latin web number fresh 1000 (some appended) engine (txt "https://a.b")
sender_virtual_origin-IsSender_example =
    sender_virtual_origin-IsSender latin web number fresh 1000 (some appended) engine
      (txt "https://a.b") sender_found

abbrev response : Headers
response = (allow_origin, txt "*") ∷ (txt "etag", txt "1") ∷ []

abbrev asked : ForeignRequest
asked = record {
  request_url = target;
  engine_origin = engine;
  method = txt "OPTIONS";
  asks_preflight = true;
  client_url = none;
  has_context = true;
}

asked_class : classify_foreign latin web fresh asked ≡ preflight
unfolding classify_foreign simple_url zeolite.Text.split zeolite.Codec.Client.is_opaque_url
    zeolite.Prelude.list_beq zeolite.CrossOrigin.Foreign.classify_client
asked_class = refl

classify_foreign-IsProxied_example :
    IsProxied latin web fresh asked
    × ((classify_foreign latin web fresh asked ≡ preflight)
        ↔ ((true ≡ true) × (txt "OPTIONS" ≡ txt "OPTIONS")))
classify_foreign-IsProxied_example =
    classify_foreign-IsProxied latin web fresh asked (λ e. ground (arith, e, asked_class))
