-- ===== src/Cookies/Request.antt =====
-- `admitCookie` of app/src/cookies.ts, up to its gates: what a Set-Cookie header asks for, or the
-- reason for which it is refused. Diagnostics are left out.
pub mod Gates
use zeolite.Prelude.{
  ℕ, suc, ◌+◌, ◌*◌, ◌-◌, Bool, true, false, not, ◌&&◌, ◌||◌, Option, none, some, List, [], ◌∷◌,
  ◌++◌, map, if◌then◌else◌, eqb, ltb, leb, is_some, or_else, any, filter, length, text_eq, ◌==◌,
}
use zeolite.Prelude.Int.{ℤ, pos_part, leb_ℕ}
use zeolite.Prelude.Maps.{get, set}
use zeolite.Prelude.Result.{Result, ok, err, ◌>>=◌, ◌>>◌, throw_if}
use zeolite.Text.{Text, txt, starts_with, includes_unit}
use zeolite.Url.{Url}
use zeolite.Cookies.{
  Cookie, SameSite, none_, ParsedUrl, dot, slash, is_secure_origin, domain_match, default_path,
  is_public_suffix, parse_http_url,
}
use zeolite.Cookies.Header.{
  pair_of, name_of, value_of, has_control, Attributes, attributes_of, cookie_byte_size,
}
use zeolite.Cookies.Profiles.{jar_key, in_profile}
use zeolite.Cookies.Jar.{Jars, retain, sweep_jar_limits}

-- The `rejected` of a result.
pub data Rejection : Type 0 where
  malformed control_character none_without_secure insecure_origin : Rejection
  domain_scope prefix_secure prefix_host size httponly unbound_client : Rejection

-- What the header asks for, once it has passed the gates.
pub record Request : Type 0 where
  pub name : Text
  pub value : Text
  pub domain : Text
  pub attributes : Attributes
  pub path : Text
  pub url : ParsedUrl

abbrev pub is_none_site : Option SameSite → Bool
is_none_site none = false
is_none_site (some s) = elim s [ none_ ↦ true | _ ↦ false ]

abbrev or_text : Text → Text → Text
or_text [] d = d
or_text (c ∷ t) d = c ∷ t

abbrev pub secure_prefix : Text
secure_prefix = txt "__Secure-"

abbrev pub host_prefix : Text
host_prefix = txt "__Host-"

module _ (parse_url : Text → Option Url) (get_public_suffix : Text → Option Text) where
  unfoldable pub need_url : Text → Option ParsedUrl → Result Rejection ParsedUrl
  need_url [] u = err malformed
  need_url (c ∷ n) none = err malformed
  need_url (c ∷ n) (some u) = ok u

  -- The tests from the start of `admitCookie` to the prefix rules, in order.
  unfoldable pub check : Text → Text → Result Rejection Request
  unfolding need_url
  check response_url header =
      let name = name_of (pair_of header) in
      let value = value_of (pair_of header) in
      let a = attributes_of header in
      do
        u ← need_url name (parse_http_url parse_url response_url)
        throw_if (has_control name || has_control value) control_character
        throw_if (is_none_site a.same_site && not a.secure) none_without_secure
        throw_if (a.secure && not (is_secure_origin u)) insecure_origin
        let domain = or_text a.domain u.host
        let path = or_text a.path (default_path u.path)
        throw_if
            (not a.host_only
              && (is_public_suffix get_public_suffix domain
                  || (not (domain_match u.host domain)
                      || not (includes_unit dot domain) && not (domain == u.host))))
            domain_scope
        throw_if ((starts_with name secure_prefix || starts_with name host_prefix) && not a.secure)
            prefix_secure
        throw_if (starts_with name host_prefix && (not a.host_only || not (path == slash ∷ [])))
            prefix_host
        ok (record {
          name = name;
          value = value;
          domain = domain;
          attributes = a;
          path = path;
          url = u;
        })
