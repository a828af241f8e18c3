-- ===== src/CrossOrigin/Sender.antt =====
-- The origin of a message's sender is that of the page its own address decodes to.
use zeolite.Prelude.{
  ℕ, ◌≡◌, ◌⊎◌, inl, inr, true, Option, none, some, ◌==◌, ==_iff, text_eq, Option-cases, Bool-cases,
  arith,
}
use zeolite.Text.{Text}
use zeolite.Url.{Url}
use zeolite.Codec.Token.{Utf8}
use zeolite.Codec.Route.{Routes}
use zeolite.Codec.Recover.{recover_path, unwrap_dest}
use zeolite.Codec.Client.{Web, decode_client_url}
use zeolite.Codec.Challenge.{filled}
use zeolite.Codec.Challenge.Repaired.{filled-some}
use zeolite.CrossOrigin.{is_web, web_page, client_dest, sender_virtual_origin}

-- The sender's address is one of the engine, and it decodes, or is recovered, to a page of the web.
pub record IsSender (utf8 : Utf8) (web : Web) (number : Text → Option ℕ) (r : Routes) (now : ℕ)
    (client_url : Option Text) (engine_origin o : Text) : Type 0 where
  pub address : Text
  pub client : Url
  pub dest : Text
  pub page : Url
  pub from : client_url ≡ some address
  pub resolved : web.resolve address engine_origin ≡ some client
  pub of_engine : client.origin ≡ engine_origin
  pub decodes :
      (decode_client_url utf8 web number r now client ≡ some dest)
      ⊎ ((decode_client_url utf8 web number r now client ≡ none)
          × (recover_path utf8 r client.pathname ≡ some dest))
  pub parsed : web.parse (unwrap_dest utf8 web.parse r dest) ≡ some page
  pub on_web : is_web page ≡ true
  pub named : page.origin ≡ o

client_dest-some :
    (utf8 : Utf8) (web : Web) (number : Text → Option ℕ) (r : Routes) (now : ℕ) (cu : Url)
    (dest : Text)
    → client_dest utf8 web number r now cu ≡ some dest
    → (decode_client_url utf8 web number r now cu ≡ some dest)
      ⊎ ((decode_client_url utf8 web number r now cu ≡ none)
          × (recover_path utf8 r cu.pathname ≡ some dest))
unfolding client_dest
client_dest-some utf8 web number r now cu dest h = ground (arith, h)

web_page-some :
    (parse_url : Text → Option Url) (s : Text) (u : Url)
    → web_page parse_url s ≡ some u
    → (parse_url s ≡ some u) × (is_web u ≡ true)
unfolding web_page
web_page-some parse_url s u h = elim (Option-cases (parse_url s)) [
  | inl n ↦ absurd (ground (arith, h, n))
  | inr (v, e) ↦ elim (Bool-cases (is_web v)) [
    | inr w ↦ absurd (ground (arith, h, e, w))
    | inl w ↦ let same : v ≡ u = ground (arith, h, e, w) in (rw same at e, rw same at w)
  ]
]

-- A message acts for no origin but the one that its sender's own address decodes to.
pub sender_virtual_origin-IsSender :
    (utf8 : Utf8) (web : Web) (number : Text → Option ℕ) (r : Routes) (now : ℕ)
    (client_url : Option Text) (engine_origin o : Text)
    → sender_virtual_origin utf8 web number r now client_url engine_origin ≡ some o
    → IsSender utf8 web number r now client_url engine_origin o
unfolding sender_virtual_origin
sender_virtual_origin-IsSender utf8 web number r now client_url engine_origin o h =
    elim (Option-cases (filled client_url)) [
      | inl n ↦ absurd (ground (arith, h, n))
      | inr (address, g) ↦ elim (Option-cases (web.resolve address engine_origin)) [
        | inl n ↦ absurd (ground (arith, h, g, n))
        | inr (client, c) ↦ elim (Bool-cases (client.origin == engine_origin)) [
          | inr other ↦ absurd (ground (arith, h, g, c, other))
          | inl same ↦ elim (Option-cases (filled (client_dest utf8 web number r now client))) [
            | inl n ↦ absurd (ground (arith, h, g, c, same, n))
            | inr (dest, d) ↦
                elim (Option-cases (web_page web.parse (unwrap_dest utf8 web.parse r dest))) [
                  | inl n ↦ absurd (ground (arith, h, g, c, same, d, n))
                  | inr (page, p) ↦
                      let (parsed, on_web) = web_page-some web.parse _ page p in
                      record {
                        address = address;
                        client = client;
                        dest = dest;
                        page = page;
                        from = filled-some client_url address g;
                        resolved = c;
                        of_engine = (==_iff client.origin engine_origin).0 same;
                        decodes =
                            client_dest-some utf8 web number r now client dest
                              (filled-some _ dest d);
                        parsed = parsed;
                        on_web = on_web;
                        named = ground (arith, h, g, c, same, d, p);
                      }
                ]
          ]
        ]
      ]
    ]
