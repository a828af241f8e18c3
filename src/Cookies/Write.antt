-- ===== src/Cookies/Write.antt =====
-- The seams that admit cookies in app/src/cookies.ts: `applySetCookie` for a response and
-- `documentCookieWrite` for a page.
pub mod Unbound
use zeolite.Prelude.{
  ℕ, zero, suc, ◌+◌, ◌-◌, Bool, true, false, not, ◌&&◌, ◌||◌, Option, none, some, List, [], ◌∷◌,
  ◌++◌, if◌then◌else◌, eqb, leb, length, drop, text_eq, ◌==◌,
}
use zeolite.Text.{Text, txt, to_lower, starts_with, is_space, is_digit}
use zeolite.Url.{Url}
use zeolite.Cookies.Profiles.{Profiles, namespace_for_client, unbound_global_namespace}
use zeolite.Cookies.Request.{unbound_client}
use zeolite.Cookies.Admit.{Store, SetCookieResult, rejected, admit_cookie}

-- The white space at the head.
abbrev spaces : Text → ℕ
spaces [] = 0
spaces (c ∷ s) = let rest = spaces s in if is_space c then suc rest else 0

-- `\b` after a word character.
abbrev ends_word : Text → Bool
ends_word [] = true
ends_word (c ∷ s) =
    not (is_digit c || (leb b'A' c && leb c b'Z' || (leb b'a' c && leb c b'z' || eqb c b'_')))

-- The length of the match of `/;\s*httponly\b/i` at the head, 0 for none.
pub http_only_match : Text → ℕ
http_only_match [] = 0
http_only_match (c ∷ s) =
    let r = drop (spaces s) s in
    if eqb c b';' && (starts_with (to_lower r) (txt "httponly") && ends_word (drop 8 r))
    then 1 + spaces s + 8
    else 0

-- `.replace(…, "")` of every match: `n` more characters of the current match are passed over.
pub strip_from : ℕ → Text → Text
unfolding http_only_match
strip_from n [] = []
strip_from (suc n) (c ∷ s) = strip_from n s
strip_from zero (c ∷ s) =
    let kept = c ∷ strip_from zero s in
    let cut = strip_from (http_only_match (c ∷ s) - 1) s in
    if eqb (http_only_match (c ∷ s)) 0 then kept else cut

pub strip_http_only : Text → Text
unfolding strip_from
strip_http_only s = strip_from 0 s

-- `raw` is what `getSetCookie` returns, `joined` the header `set-cookie`.
abbrev pub header_list : List Text → Option Text → List Text
header_list (h ∷ hs) joined = h ∷ hs
header_list [] none = []
header_list [] (some h) = h ∷ []

module _ (parse_url : Text → Option Url) (get_public_suffix : Text → Option Text)
    (encode : Text → Text) where
  -- The headers in order, each on the store that the one before left.
  pub admit_all : Text → List Text → Text → ℕ → ℕ → Store → Store × List SetCookieResult
  admit_all url [] namespace now later s = (s, [])
  admit_all url (h ∷ hs) namespace now later s =
      let (s', r) = admit_cookie parse_url get_public_suffix url h false namespace now later s in
      let (t, rs) = admit_all url hs namespace now later s' in (t, r ∷ rs)

  pub apply_set_cookie :
      Text
      → List Text
      → Option Text
      → Profiles
      → Option Text
      → ℕ
      → ℕ
      → Store
      → Store × List SetCookieResult
  unfolding admit_all
  apply_set_cookie url raw joined profiles client now later s =
      let namespace = namespace_for_client encode profiles client in
      if namespace == unbound_global_namespace encode
      then (s, [])
      else admit_all url (header_list raw joined) namespace now later s

  pub document_cookie_write :
      Text → Text → Profiles → Option Text → ℕ → ℕ → Store → Store × SetCookieResult
  unfolding strip_http_only
  document_cookie_write url cookie profiles client now later s =
      let namespace = namespace_for_client encode profiles client in
      if namespace == unbound_global_namespace encode
      then (s, rejected unbound_client)
      else admit_cookie parse_url get_public_suffix url (strip_http_only cookie) true namespace now
          later s
