-- ===== src/Examples.antt =====
-- A small URL parser that stands for `new URL(text)` in the examples: scheme, host and path of
-- an address `scheme://host/path`, with no port, query or fragment. The children hold the examples.
pub mod Cookies
pub mod Transport
pub mod Rules
pub mod Kdl
pub mod Codec
pub mod Query
mod Client
pub mod Sockets
pub mod Bodies
mod Csp
mod CrossOrigin
mod Extensions
use zeolite.Prelude.{◌≡◌, refl, Option, none, some, List, [], ◌∷◌, ◌++◌}
use zeolite.Text.{Text, txt, split}
use zeolite.Url.{Url}

abbrev joined : List Text → Text
joined [] = []
joined (w ∷ ws) = b'/' ∷ (w ++ joined ws)

abbrev path_of : List Text → Text
path_of [] = txt "/"
path_of (w ∷ ws) = joined (w ∷ ws)

abbrev address_of : List Text → Option Url
address_of (scheme ∷ [] ∷ (c ∷ host) ∷ path) = some (record {
  protocol = scheme;
  origin = scheme ++ (b'/' ∷ b'/' ∷ c ∷ host);
  host = c ∷ host;
  hostname = c ∷ host;
  port = [];
  pathname = path_of path;
  search = [];
  hash = [];
})
address_of _ = none

unfoldable pub simple_url : Text → Option Url
simple_url text = address_of (split b'/' text)

-- A public suffix list of one entry, and registrable domains that are the host itself.
abbrev pub suffixes : Text → Option Text
suffixes d = some (txt "com")

abbrev pub domains : Text → Option Text
domains h = some h

abbrev pub plain : Text → Text
plain t = t
