-- ===== src/Examples/Codec.antt =====
-- Runs of the codec of app/src/codec.ts, on the texts whose code units are bytes.
use zeolite.Prelude.{
  ◌↔◌, ℕ, zero, suc, ◌+◌, ◌%◌, ◌<◌, ◌≡◌, refl, Bool, true, false, Option, none, some, List, [], ◌∷◌,
  ◌++◌, arith, map, All, In, inl, length, drop, ◌==◌, text_eq, any,
}
use zeolite.Text.{Text, txt, starts_with}
use zeolite.Url.{Url}
use zeolite.Numbers.{decimal}
use zeolite.Examples.{simple_url}
use zeolite.Codec.Recover.{recover_path, after}
use zeolite.Codec.Recover.Verified.{Recovered, recover_path-Recovered}
use zeolite.Codec.Handle.{encode_nav_handle}
use zeolite.Codec.Handle.Mint.{Dated, encode_nav_handle-Dated}
use zeolite.Codec.{Bytes, IsByte}
use zeolite.Codec.Siphash.{siphash24}
use zeolite.Codec.Base64.{b64u_encode, b64u_decode}
use zeolite.Codec.Base64.Canonical.{b64u_decode_iff}
use zeolite.Codec.Token.{
  Utf8, keyed_token, keyed_payload, keyed_decode, is_http, cipher, decipher, sealed,
}
use zeolite.Codec.Token.Opaque.{keyed_payload-keyed_token, keyed_payload-sealed}
use zeolite.Codec.Route.{
  Routes, initial, encode_dest, encode_dest_legacy, decode_path, is_engine_path,
  reserved_scheme_segments, before_query,
}
use zeolite.Codec.Route.Prefix.{Change, scheme, route_keys, run, HasValidPrefix, run-is_engine_path}
use zeolite.Codec.Route.Opens.{decode_path-encode_dest}
use zeolite.Codec.Route.Carries.{Carries, decode_path-Carries}

-- The bytes 0 to n - 1, shifted by i.
unfoldable pub up_to : ℕ → ℕ → Bytes
up_to zero i = []
up_to (suc n) i = i ∷ up_to n (i + 1)

-- The reference vector of SipHash-2-4.
siphash24_vector : siphash24 (up_to 16 0) (up_to 15 0) ≡ 0xa129ca6149be45e5
unfolding zeolite.Codec.Siphash.siphash24 zeolite.Codec.Siphash.sipround
    zeolite.Codec.Siphash.absorb zeolite.Codec.Siphash.absorb_all zeolite.Codec.Siphash.le64
    zeolite.Codec.Siphash.rotl64 up_to
siphash24_vector = refl

unfoldable pub low_bytes : Text → Bytes
low_bytes [] = []
low_bytes (c ∷ s) = c % 256 ∷ low_bytes s

pub low_bytes-IsByte : (s : Text) → All IsByte (low_bytes s)
unfolding low_bytes
low_bytes-IsByte [] = tt
low_bytes-IsByte (c ∷ s) = (omega arith, low_bytes-IsByte s)

pub low_bytes_ascii : (c : ℕ) (s : Text) → c < 128 → low_bytes (c ∷ s) ≡ c ∷ low_bytes s
unfolding low_bytes
low_bytes_ascii c s h = ground arith

-- UTF-8 on ASCII texts.
abbrev pub latin : Utf8
latin = record {
  encode = low_bytes;
  decode = λ bytes. some bytes;
  encode-IsByte = low_bytes-IsByte;
  encode_ascii = low_bytes_ascii;
}

abbrev page : Text
page = txt "https://a.example/x?y#z"

abbrev pub key_a : Bytes
key_a = up_to 16 0

b64u_decode_iff_example :
    (b64u_decode (txt "Af8") ≡ some (1 ∷ 255 ∷ [])) ↔ (txt "Af8" ≡ b64u_encode (1 ∷ 255 ∷ []))
b64u_decode_iff_example =
    b64u_decode_iff (txt "Af8") (1 ∷ 255 ∷ []) (omega arith, (omega arith, tt))

keyed_payload-sealed_example :
    (d : Bytes) × (latin.decode d ≡ some page) × (keyed_token latin key_a page ≡ sealed key_a d)
unfolding low_bytes
keyed_payload-sealed_example =
    keyed_payload-sealed latin key_a (keyed_token latin key_a page) page
      (keyed_payload-keyed_token latin key_a page refl)

abbrev changes : List Change
changes =
    scheme (txt "/go/") ∷ route_keys (txt "AAECAwQFBgcICQoLDA0ODw" ∷ []) ∷ scheme (txt "/") ∷ []

run-is_engine_path_example :
    HasValidPrefix (run changes initial)
    × (is_engine_path (run changes initial) (txt "/sw.js") ≡ false)
    × (is_engine_path (run changes initial) (b'/' ∷ (txt "zl-ext" ++ b'/' ∷ txt "a")) ≡ false)
unfolding zeolite.Codec.Route.is_engine_asset zeolite.Prelude.list_beq
run-is_engine_path_example =
    run-is_engine_path changes (txt "/sw.js") (txt "zl-ext") (txt "a") refl refl

-- The changes left the prefix /go/ and one key.
run-changes :
    run changes initial
    ≡ record { prefix = txt "/go/"; route_key = some key_a; route_keys = key_a ∷ [] }
unfolding zeolite.Codec.Route.Prefix.run zeolite.Codec.Route.Prefix.change
    zeolite.Codec.Route.set_scheme zeolite.Codec.Route.set_route_keys zeolite.Codec.Route.held_keys
    zeolite.Codec.Route.key_bytes zeolite.Codec.Route.valid_scheme_prefix
    zeolite.Codec.Route.scheme_segment zeolite.Codec.Route.closed_segment zeolite.Text.starts_with
    zeolite.Prelude.list_beq up_to zeolite.Codec.Base64.b64u_decode zeolite.Codec.Base64.decode_bits
    zeolite.Codec.Base64.digit zeolite.Text.index_of zeolite.Codec.Base64.with_byte
run-changes = refl

decode_path-encode_dest_example :
    (decode_path latin (run changes initial) (encode_dest latin (run changes initial) page)
      ≡ some page)
    × (decode_path latin (run changes initial) (encode_dest_legacy latin (run changes initial) page)
        ≡ some page)
unfolding zeolite.Codec.Token.is_http zeolite.Text.starts_with low_bytes
decode_path-encode_dest_example = decode_path-encode_dest latin changes page refl refl

abbrev rotated : Routes
rotated = record initial {
  route_key = some (up_to 16 3);
  route_keys = up_to 16 3 ∷ key_a ∷ up_to 16 8 ∷ [];
}

decode_path-Carries_example :
    (is_http (txt "http://b") ≡ true)
    × (starts_with (txt "/j/aHR0cDovL2I?q") (txt "/j/") ≡ true)
    × (bytes : Bytes) × (before_query (drop (length initial.prefix) (txt "/j/aHR0cDovL2I?q"))
        ≡ b64u_encode bytes)
    × Carries latin initial (txt "http://b") bytes
unfolding zeolite.Codec.Route.decode_path zeolite.Codec.Route.tail_bytes
    zeolite.Codec.Route.before_query zeolite.Codec.Route.open_tail zeolite.Codec.Route.is_keyed
    zeolite.Codec.Token.is_http zeolite.Text.starts_with low_bytes zeolite.Codec.Base64.b64u_decode
    zeolite.Codec.Base64.decode_bits zeolite.Codec.Base64.digit zeolite.Text.index_of
    zeolite.Codec.Base64.with_byte
decode_path-Carries_example =
    decode_path-Carries latin initial (txt "/j/aHR0cDovL2I?q") (txt "http://b") refl

abbrev pub fresh : Routes
fresh = record initial { route_key = some key_a; route_keys = key_a ∷ [] }

abbrev pub number : Text → Option ℕ
number s = some (decimal s)

abbrev pub page_url : Url
page_url = record {
  protocol = txt "https:";
  origin = txt "https://a.example";
  host = txt "a.example";
  hostname = txt "a.example";
  port = [];
  pathname = txt "/x";
  search = [];
  hash = [];
}

-- A handle for a page of a.example, minted at 1000 for 500 ms and read at 1400.
encode_nav_handle-Dated_example :
    (token : Text) × (encode_nav_handle latin simple_url number fresh 1000 500
        (txt "n")
        (txt "https://a.example/x")
        (some (txt "host-1"))
      ≡ some token)
    × Dated latin simple_url number fresh token
        (record {
          destination = txt "https://a.example";
          root_client_id = some (txt "host-1");
          expires = 1000 + 500;
        })
        1400
unfolding simple_url zeolite.Text.split zeolite.Codec.Handle.mintable_dest zeolite.Prelude.list_beq
    zeolite.Codec.Fields.Lacks zeolite.Text.includes_unit zeolite.Text.starts_with
    zeolite.Codec.Handle.bound_root zeolite.Codec.Handle.valid_root
    zeolite.Codec.Handle.Reads.Bindable low_bytes zeolite.Numbers.decimal zeolite.Numbers.print
    zeolite.Codec.Handle.handle_payload zeolite.Codec.Handle.root_binding
    zeolite.Codec.Base64.b64u_encode zeolite.Codec.Base64.letter
encode_nav_handle-Dated_example =
    encode_nav_handle-Dated latin simple_url number fresh key_a [] 1000 500 1400 (txt "n")
      (txt "https://a.example/x") (some (txt "host-1")) (some (txt "host-1")) page_url refl refl
      refl refl refl refl refl refl refl (refl, refl) refl refl

-- A route with text appended to its token gives the destination with that text.
abbrev pub appended : Text
appended = encode_dest latin fresh (txt "https://a.b") ++ txt "/c"

recovered_text : recover_path latin fresh appended ≡ some (txt "https://a.b/c")
unfolding zeolite.Codec.Recover.recover_path zeolite.Codec.Recover.after
    zeolite.Codec.Recover.recover_tail zeolite.Codec.Recover.recover_bytes
    zeolite.Codec.Recover.recover_with zeolite.Codec.Recover.try_lengths
    zeolite.Codec.Recover.try_length zeolite.Codec.Recover.gate_text
    zeolite.Codec.Recover.letters_first zeolite.Codec.Base64.b64u_decode_lenient
    zeolite.Codec.Base64.b64u_encode zeolite.Codec.Route.encode_dest
    zeolite.Codec.Route.before_query zeolite.Codec.Route.open_tail zeolite.Codec.Siphash.siphash24
    zeolite.Codec.Siphash.sipround zeolite.Codec.Siphash.absorb zeolite.Codec.Siphash.absorb_all
    zeolite.Codec.Siphash.le64 zeolite.Codec.Siphash.rotl64 up_to zeolite.Codec.Token.keyed_token
    zeolite.Codec.Token.iv_of zeolite.Codec.Token.dest_mac zeolite.Codec.Siphash.le_bytes
    zeolite.Codec.Token.cipher zeolite.Codec.Token.decipher zeolite.Codec.Token.stream_byte
    zeolite.Codec.Token.keystream_block zeolite.Codec.Token.mac_equals zeolite.Codec.Token.fold_diff
    zeolite.Codec.Token.is_http low_bytes zeolite.Prelude.Maps.get zeolite.Prelude.Maps.set
    zeolite.Text.starts_with zeolite.Codec.Base64.decode_bits zeolite.Codec.Base64.digit
    zeolite.Codec.Base64.letter zeolite.Text.index_of zeolite.Codec.Base64.with_byte
recovered_text = refl

recover_path-Recovered_example :
    (rest : Text) × (after fresh.prefix appended ≡ some rest)
    × Recovered latin fresh (before_query rest) (txt "https://a.b/c")
recover_path-Recovered_example =
    recover_path-Recovered latin fresh appended (txt "https://a.b/c") recovered_text
