-- ===== src/Url.antt =====
-- What the engine reads of a parsed URL. The parser itself (`new URL(text)`) is the platform's: a
-- component that parses takes `parse_url : Text → Option Url` as an argument, with `none` for a
-- thrown TypeError.
use zeolite.Text.{Text}

pub record Url : Type 0 where
  pub protocol : Text
  pub origin : Text
  pub host : Text
  pub hostname : Text
  pub port : Text
  pub pathname : Text
  pub search : Text
  pub hash : Text
