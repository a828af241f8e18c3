-- ===== src/Cookies/Header.antt =====
-- The reading of one Set-Cookie header: the first half of `admitCookie` of app/src/cookies.ts, up to
-- the attributes, and the serialised size.
use zeolite.Prelude.{
  ℕ, suc, ◌+◌, Bool, true, false, ◌&&◌, ◌||◌, Option, none, some, List, [], ◌∷◌, if◌then◌else◌, eqb,
  ltb, leb, any, take, drop, text_eq, ◌==◌,
}
use zeolite.Prelude.Int.{ℤ, pos, neg}
use zeolite.Text.{Text, txt, to_lower, starts_with, index_of, split, trim}
use zeolite.Numbers.{decimal}
use zeolite.Cookies.{SameSite, strict, lax, none_, dot, slash, is_number}
use zeolite.Cookies.Date.{parse_cookie_date}

abbrev pub semicolon : ℕ
semicolon = b';'

abbrev equals : ℕ
equals = b'='

-- The part of the header before the first `;`, trimmed, and the part after it.
unfoldable pub pair_of : Text → Text
pair_of header = elim (index_of semicolon header) [
  | none ↦ trim header
  | some i ↦ trim (take i header)
]

unfoldable pub rest_of : Text → Text
rest_of header = elim (index_of semicolon header) [ none ↦ [] | some i ↦ drop (suc i) header ]

-- An `=` at the start, or none, gives no name.
unfoldable pub name_of : Text → Text
name_of pair = elim (index_of equals pair) [
  | none ↦ []
  | some i ↦ if eqb i 0 then [] else trim (take i pair)
]

unfoldable pub value_of : Text → Text
value_of pair = elim (index_of equals pair) [
  | none ↦ []
  | some i ↦ if eqb i 0 then [] else trim (drop (suc i) pair)
]

-- `/[\x00-\x1F\x7F]/`
unfoldable pub has_control : Text → Bool
has_control s = any (λ c. leb c 0x1F || eqb c 0x7F) s

-- What the attribute loop has read. `expires` is `none` while `hasExpires` is false.
pub record Attributes : Type 0 where
  pub domain : Text
  pub host_only : Bool
  pub path : Text
  pub secure : Bool
  pub http_only : Bool
  pub same_site : Option SameSite
  pub expires : Option ℤ
  pub max_age : Option ℤ

abbrev pub no_attributes : Attributes
no_attributes = record {
  domain = [];
  host_only = true;
  path = [];
  secure = false;
  http_only = false;
  same_site = none;
  expires = none;
  max_age = none;
}

abbrev key_of : Text → Text
key_of p = elim (index_of equals p) [
  | none ↦ to_lower (trim p)
  | some i ↦ to_lower (trim (take i p))
]

abbrev val_of : Text → Text
val_of p = elim (index_of equals p) [ none ↦ [] | some i ↦ trim (drop (suc i) p) ]

-- `(val.startsWith(".") ? val.slice(1) : val).toLowerCase()`
pub domain_value : Text → Text
domain_value [] = []
domain_value (c ∷ v) = if eqb c dot then to_lower v else to_lower (c ∷ v)

unfoldable pub same_site_value : Text → Option SameSite
same_site_value v =
    let l = to_lower v in
    if l == txt "strict"
    then some strict
    else if l == txt "lax"
    then some lax
    else if l == txt "none"
    then some none_
    else none

-- `/^-?\d+$/.test(val)` and `Number(val)`.
pub max_age_value : Text → Option ℤ
max_age_value [] = none
max_age_value (c ∷ v) =
    if eqb c b'-'
    then (if is_number v then some (neg (decimal v)) else none)
    else if is_number (c ∷ v)
    then some (pos (decimal (c ∷ v)))
    else none

unfoldable pub set_domain : Text → Attributes → Attributes
unfolding domain_value
set_domain [] a = a
set_domain (c ∷ v) a = record a { domain = domain_value (c ∷ v); host_only = false }

unfoldable pub set_expires : Text → Attributes → Attributes
set_expires v a = elim (parse_cookie_date v) [ none ↦ a | some t ↦ record a { expires = some t } ]

unfoldable pub set_max_age : Text → Attributes → Attributes
unfolding max_age_value
set_max_age v a = elim (max_age_value v) [ none ↦ a | some n ↦ record a { max_age = some n } ]

unfoldable pub set_attribute : Text → Text → Attributes → Attributes
set_attribute key val a =
    if key == txt "domain"
    then set_domain val a
    else if key == txt "path"
    then (if starts_with val (slash ∷ []) then record a { path = val } else a)
    else if key == txt "secure"
    then record a { secure = true }
    else if key == txt "httponly"
    then record a { http_only = true }
    else if key == txt "samesite"
    then record a { same_site = same_site_value val }
    else if key == txt "max-age"
    then set_max_age val a
    else if key == txt "expires"
    then set_expires val a
    else a

-- One part between semicolons, trimmed; an empty one is passed over.
unfoldable pub read_part : Text → Attributes → Attributes
read_part [] a = a
read_part (c ∷ p) a = set_attribute (key_of (c ∷ p)) (val_of (c ∷ p)) a

unfoldable pub read_attributes : List Text → Attributes → Attributes
read_attributes [] a = a
read_attributes (part ∷ parts) a = read_attributes parts (read_part (trim part) a)

unfoldable pub attributes_of : Text → Attributes
unfolding read_attributes read_part
attributes_of header = read_attributes (split semicolon (rest_of header)) no_attributes

-- The bytes of `TextEncoder`: a surrogate pair is one code point, and a lone surrogate is replaced
-- by U+FFFD, which takes three bytes too.
pub utf8_length : Text → ℕ
utf8_length [] = 0
utf8_length (c ∷ []) = if ltb c 0x80 then 1 else if ltb c 0x800 then 2 else 3
utf8_length (c ∷ d ∷ s) =
    let pair = 4 + utf8_length s in
    let one = (if ltb c 0x80 then 1 else if ltb c 0x800 then 2 else 3) + utf8_length (d ∷ s) in
    if leb 0xD800 c && (leb c 0xDBFF && (leb 0xDC00 d && leb d 0xDFFF)) then pair else one

pub cookie_byte_size : Text → Text → ℕ
unfolding utf8_length
cookie_byte_size name value = utf8_length name + utf8_length value
