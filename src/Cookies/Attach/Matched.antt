-- ===== src/Cookies/Attach/Matched.antt =====
-- Which cookies reach a request or a page, and in which order.

use zeolite.Prelude.{
  ℕ, ◌≡◌, refl, subst, ◌↔◌, ◌⊎◌, inl, inr, Bool, true, false, not, ◌&&◌, ◌||◌, Option, some, [],
  ◌∷◌, arith, filter, In, Bool-cases, Option-cases, text_eq, ◌==◌, ==_iff,
}
use zeolite.Prelude.Sort.{IsSorted, sort, sort-IsSorted}
use zeolite.Prelude.Members.{In-append, In-filter, In-sort}
use zeolite.Text.{Text}
use zeolite.Url.{Url}
use zeolite.Cookies.{
  Cookie, SameSitePolicy, ParsedUrl, CookieRequestContext, parse_http_url, same_site_allows,
}
use zeolite.Cookies.Profiles.{Profiles, in_profile, namespace_for_client, unbound_global_namespace}
use zeolite.Cookies.Jar.{Jars, is_live}
use zeolite.Cookies.Attach.{in_scope, sent_before, select, attached, match_document_cookies}
use zeolite.Cookies.Attach.Covers.{Covers, IsLive, in_scope_iff, is_live_iff}

-- The order of RFC 6265 5.4: longer paths first, then the earliest created.
sent_before_total : (a b : Cookie) → sent_before a b ≡ false → sent_before b a ≡ true
unfolding sent_before
sent_before_total a b h = ground arith

sent_before_trans :
    (a b c : Cookie) → sent_before a b ≡ true → sent_before b c ≡ true → sent_before a c ≡ true
unfolding sent_before
sent_before_trans a b c p q = ground arith

-- A cookie of some bucket of the namespace.
abbrev pub Held : Text → Jars → Cookie → Type 0
Held namespace [] c = ⊥
Held namespace ((k, l) ∷ m) c = ((in_profile k namespace ≡ true) × In c l) ⊎ Held namespace m c

In-select :
    (namespace : Text) (p : Cookie → Bool) (jars : Jars) (c : Cookie)
    → In c (select namespace p jars) ↔ (Held namespace jars c × (p c ≡ true))
unfolding select
In-select namespace p [] c = ground arith
In-select namespace p ((k, l) ∷ m) c = ground (
  arith,
  In-select namespace p m c,
  In-filter p c l,
  In-append c (filter p l) (select namespace p m),
)

-- The list that a page at an address reads from a namespace.
In-reads :
    (u : ParsedUrl) (now : ℕ) (namespace : Text) (jars : Jars) (c : Cookie)
    → In c (
        sort sent_before
          (select namespace (λ x. not (x.http_only || not (is_live now x)) && in_scope u x) jars))
      ↔ (Held namespace jars c × (c.http_only ≡ false) × IsLive now c × Covers u c)
In-reads u now namespace jars c =
    let test : Cookie → Bool = λ x. not (x.http_only || not (is_live now x)) && in_scope u x in
    ground (
      arith,
      In-sort sent_before c (select namespace test jars),
      In-select namespace test jars c,
      in_scope_iff u c,
      is_live_iff now c,
    )

module _ (parse_url : Text → Option Url) (get_domain : Text → Option Text)
    (encode : Text → Text) where
  -- A cookie is attached to a request exactly when it is held in a bucket of the request's namespace,
  -- its domain, scheme and path scope cover the request, and the SameSite policy lets it pass.
  pub In-attached :
      (policy : SameSitePolicy) (u : ParsedUrl) (ctx : CookieRequestContext) (namespace : Text)
      (jars : Jars) (c : Cookie)
      → In c (attached parse_url get_domain encode policy u ctx namespace jars) ↔ (
          Held namespace jars c
          × (in_scope u c ≡ true)
          × (same_site_allows parse_url get_domain policy c u ctx ≡ true))
  unfolding attached
  In-attached policy u ctx namespace jars c =
      let test : Cookie → Bool =
        λ x. in_scope u x && same_site_allows parse_url get_domain policy x u ctx in
      ground
        (arith, In-sort sent_before c (select namespace test jars), In-select namespace test jars c)

  -- Both what is attached and what a page reads stand in the order of RFC 6265: each cookie before
  -- those of shorter paths, and before later ones of an equally long path.
  pub sent_in_order :
      (policy : SameSitePolicy) (profiles : Profiles) (u : ParsedUrl) (ctx : CookieRequestContext)
      (namespace page_url : Text) (client : Option Text) (now : ℕ) (jars : Jars)
      → IsSorted sent_before (attached parse_url get_domain encode policy u ctx namespace jars)
        × IsSorted sent_before
            (match_document_cookies parse_url get_domain encode profiles page_url client now jars)
  unfolding attached match_document_cookies
  sent_in_order policy profiles u ctx namespace page_url client now jars =
      (sort-IsSorted sent_before sent_before_total sent_before_trans _, document_order)
    where
      document_order :
          IsSorted sent_before
            (match_document_cookies parse_url get_domain encode profiles page_url client now jars)
      document_order = elim (Option-cases (parse_http_url parse_url page_url)) [
        | inl e ↦ rw (e, match_document_cookies) tt
        | inr (v, e) ↦
            rw (e, match_document_cookies)
              (elim (Bool-cases
                (namespace_for_client encode profiles client == unbound_global_namespace encode)) [
                  | inl b ↦ rw b tt
                  | inr b ↦ rw b (sort-IsSorted sent_before sent_before_total sent_before_trans _)
                ])
      ]

  -- A page reads exactly the cookies of its own namespace that are live, not HttpOnly and for its
  -- address, if this is of the web and the namespace is not the unbound one; else it reads none.
  pub match_document_cookies_iff :
      (profiles : Profiles) (page_url : Text) (client : Option Text) (now : ℕ) (jars : Jars)
      (c : Cookie)
      → In c (match_document_cookies parse_url get_domain encode profiles page_url client now jars)
        ↔ ((u : ParsedUrl) × (parse_http_url parse_url page_url ≡ some u)
            × (¬ (namespace_for_client encode profiles client ≡ unbound_global_namespace encode))
            × Held (namespace_for_client encode profiles client) jars c
            × (c.http_only ≡ false)
            × IsLive now c
            × Covers u c)
  unfolding match_document_cookies
  match_document_cookies_iff profiles page_url client now jars c =
      let namespace : Text = namespace_for_client encode profiles client in
      elim (Option-cases (parse_http_url parse_url page_url)) [
        | inl n ↦ rw (n, match_document_cookies) (λ h. absurd h, λ h. absurd (ground (arith, h.1)))
        | inr (u, e) ↦ elim (Bool-cases (namespace == unbound_global_namespace encode)) [
          | inl b ↦
              rw (e, b, match_document_cookies)
                (
                  λ h. absurd h,
                  λ h. absurd (h.2 ((==_iff namespace (unbound_global_namespace encode)).0 b)),
                )
          | inr b ↦
              let reads = In-reads u now namespace jars c in
              let bound : ¬ (namespace ≡ unbound_global_namespace encode) =
                λ q. ground (arith, b, (==_iff namespace (unbound_global_namespace encode)).1 q) in
              rw (e, b, match_document_cookies)
                (
                  λ h.
                      let (held, visible, live, covers) = reads.0 h in
                      (u, refl, bound, held, visible, live, covers),
                  λ (v, p, n, held, visible, live, covers).
                      let same : v ≡ u = ground (arith, p) in
                      reads.1 (held, visible, live, subst (λ w. Covers w c) same covers),
                )
        ]
      ]
