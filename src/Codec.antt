-- ===== src/Codec.antt =====
-- The URL codec of app/src/codec.ts: base64url, keyed tokens and engine routes. A `Uint8Array` is a
-- list of numbers below 256.
pub mod Base64
pub mod Siphash
pub mod Token
pub mod Route
pub mod Handle
pub mod Recover
pub mod Query
pub mod Fields
pub mod Client
pub mod Challenge
use zeolite.Prelude.{ℕ, ◌<◌, List}

abbrev pub Bytes : Type 0
Bytes = List ℕ

abbrev pub IsByte : ℕ → Type 0
IsByte b = b < 256
