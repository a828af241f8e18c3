-- ===== src/Cookies/Origin.antt =====
-- `originJarId` of app/src/cookies.ts: the jar's name for an origin is `o` and the hexadecimal bytes
-- of the origin.
use zeolite.Prelude.{
  ℕ, ◌+◌, ◌*◌, ◌-◌, ◌/◌, ◌%◌, ◌≡◌, false, ◌&&◌, Option, none, some, [], ◌∷◌, arith, if◌then◌else◌,
  ltb, leb, text_eq,
}
use zeolite.Cookies.Profiles.{sep}
use zeolite.Text.{Text, includes_unit}
use zeolite.Url.{Url}

abbrev hex_digit : ℕ → ℕ
hex_digit d = if ltb d 10 then 48 + d else 87 + d

-- `b.toString(16).padStart(2, "0")` of a byte.
abbrev hex_byte : ℕ → Text → Text
hex_byte b rest = hex_digit (b / 16) ∷ hex_digit (b % 16) ∷ rest

-- `TextEncoder` on one code point.
abbrev utf8_point : ℕ → Text → Text
utf8_point c rest =
    if ltb c 0x80
    then hex_byte c rest
    else if ltb c 0x800
    then hex_byte (0xC0 + c / 64) (hex_byte (0x80 + c % 64) rest)
    else if ltb c 0x10000
    then hex_byte (0xE0 + c / 4096) (hex_byte (0x80 + c / 64 % 64) (hex_byte (0x80 + c % 64) rest))
    else hex_byte (0xF0 + c / 262144) (
        hex_byte (0x80 + c / 4096 % 64)
          (hex_byte (0x80 + c / 64 % 64) (hex_byte (0x80 + c % 64) rest)))

-- A unit that is half of no pair is replaced by U+FFFD.
abbrev scalar : ℕ → ℕ
scalar c = if leb 0xD800 c && leb c 0xDFFF then 0xFFFD else c

pub hex_bytes : Text → Text
hex_bytes [] = []
hex_bytes (c ∷ []) = utf8_point (scalar c) []
hex_bytes (c ∷ d ∷ s) =
    let pair = hex_bytes s in
    let one = hex_bytes (d ∷ s) in
    if leb 0xD800 c && (leb c 0xDBFF && (leb 0xDC00 d && leb d 0xDFFF))
    then utf8_point (0x10000 + (c - 0xD800) * 1024 + (d - 0xDC00)) pair
    else utf8_point (scalar c) one

-- `new URL(origin).origin`. The text is the origin of a parsed URL, which parses again; for one that
-- would not, the model keeps it as it is.
abbrev pub canonical : (Text → Option Url) → Text → Text
canonical parse_url origin = elim (parse_url origin) [ none ↦ origin | some u ↦ u.origin ]

unfoldable pub origin_jar_id : (Text → Option Url) → Text → Text
unfolding hex_bytes includes_unit
origin_jar_id parse_url origin = b'o' ∷ hex_bytes (canonical parse_url origin)

-- The hexadecimal bytes hold no separator.
hex_byte-plain :
    (b : ℕ) (t : Text) → includes_unit sep t ≡ false → includes_unit sep (hex_byte b t) ≡ false
unfolding includes_unit
hex_byte-plain b t h = ground arith

utf8_point-plain :
    (c : ℕ) (t : Text) → includes_unit sep t ≡ false → includes_unit sep (utf8_point c t) ≡ false
utf8_point-plain c t h =
    let one = hex_byte-plain (0x80 + c % 64) t h in
    let two = hex_byte-plain (0x80 + c / 64 % 64) _ one in
    let three = hex_byte-plain (0x80 + c / 4096 % 64) _ two in
    ground (
      arith,
      hex_byte-plain c t h,
      hex_byte-plain (0xC0 + c / 64) _ one,
      hex_byte-plain (0xE0 + c / 4096) _ two,
      hex_byte-plain (0xF0 + c / 262144) _ three,
    )

pub hex_bytes-plain : (s : Text) → includes_unit sep (hex_bytes s) ≡ false
unfolding hex_bytes includes_unit
hex_bytes-plain [] = ground arith
hex_bytes-plain (c ∷ []) = utf8_point-plain (scalar c) [] (ground arith)
hex_bytes-plain (c ∷ d ∷ s) = ground (
  arith,
  utf8_point-plain (scalar c) (hex_bytes (d ∷ s)) (hex_bytes-plain (d ∷ s)),
  utf8_point-plain (0x10000 + (c - 0xD800) * 1024 + (d - 0xDC00)) (hex_bytes s) (hex_bytes-plain s),
)
