-- ===== src/Cookies/Attach/Sent.antt =====
-- The Cookie header of a request, `cookieHeaderFor` of app/src/cookies.ts, against its description.
use mathlib.Core.List.{append_assoc}
use zeolite.Prelude.{
  ℕ, ◌≡◌, refl, ap, sym, subst, ◌∙◌, ◌↔◌, ◌⊎◌, inl, inr, ◌≤◌, ◌<◌, Bool, true, Option, none, some,
  List, [], ◌∷◌, ◌++◌, map, arith, eqb, filter, length, In, All, Bool-cases, Option-cases,
  List-cases, text_eq, ◌==◌, ==_iff,
}
use zeolite.Prelude.Sort.{IsSorted}
use zeolite.Prelude.Members.{In-filter}
use zeolite.Text.{Text, txt}
use zeolite.Url.{Url}
use zeolite.Cookies.{Cookie, SameSitePolicy, ParsedUrl, CookieRequestContext, parse_http_url}
use zeolite.Cookies.Profiles.{Profiles, namespace_for_client, unbound_global_namespace}
use zeolite.Cookies.Jar.{Jars, is_live, retain, purge}
use zeolite.Cookies.Attach.{sent_before, serialize, attached, cookie_header_for}
use zeolite.Cookies.Attach.Matched.{Held, In-attached, sent_in_order}
use zeolite.Cookies.Attach.Covers.{
  Covers, IsLive, MayRide, in_scope_iff, is_live_iff, same_site_allows_iff,
}

-- A bucket that keeps its length under a filter keeps all its cookies.
length-filter : (p : Cookie → Bool) (l : List Cookie) → length (filter p l) ≤ length l
length-filter p [] = ground arith
length-filter p (c ∷ l) = ground (arith, length-filter p l)

filter-whole :
    (p : Cookie → Bool) (l : List Cookie) (c : Cookie)
    → length (filter p l) ≡ length l
    → In c l
    → p c ≡ true
filter-whole p [] c e i = absurd i
filter-whole p (d ∷ l) c e (inl q) = ground (arith, length-filter p l)
filter-whole p (d ∷ l) c e (inr i) = filter-whole p l c (ground (arith, length-filter p l)) i

-- The purge leaves exactly the live cookies of each bucket.
Held-purge :
    (namespace : Text) (now : ℕ) (jars : Jars) (c : Cookie)
    → Held namespace (purge now jars) c ↔ (Held namespace jars c × (is_live now c ≡ true))
unfolding purge retain
Held-purge namespace now [] c = ground arith
Held-purge namespace now ((k, l) ∷ m) c =
    let rest = Held-purge namespace now m c in
    let part = In-filter (is_live now) c l in
    elim (Bool-cases (eqb (length (filter (is_live now) l)) (length l))) [
      | inl e ↦
          let left : purge now ((k, l) ∷ m) ≡ (k, l) ∷ purge now m = ground (arith, e) in
          let same : length (filter (is_live now) l) ≡ length l = ground (arith, e) in
          subst (λ j. Held namespace j c ↔ (Held namespace ((k, l) ∷ m) c × (is_live now c ≡ true)))
            (sym left) (ground (arith, rest, filter-whole (is_live now) l c same))
      | inr e ↦ elim (List-cases (filter (is_live now) l)) [
        | inl n ↦
            let left : purge now ((k, l) ∷ m) ≡ purge now m = ground (arith, e, n) in
            let gone : ¬ (In c l × (is_live now c ≡ true)) = rw n at part.1 in
            subst
              (λ j. Held namespace j c ↔ (Held namespace ((k, l) ∷ m) c × (is_live now c ≡ true)))
              (sym left) (ground (arith, rest, gone))
        | inr (d, ds, n) ↦
            let left : purge now ((k, l) ∷ m) ≡ (k, d ∷ ds) ∷ purge now m = ground (arith, e, n) in
            let kept : In c (d ∷ ds) ↔ (In c l × (is_live now c ≡ true)) = rw n at part in
            subst
              (λ j. Held namespace j c ↔ (Held namespace ((k, l) ∷ m) c × (is_live now c ≡ true)))
              (sym left) (ground (arith, rest, kept))
      ]
    ]

-- The order of RFC 6265 5.4: longer paths first, then the earliest created.
abbrev pub Precedes : Cookie → Cookie → Type 0
Precedes a b =
    (length b.path < length a.path) ⊎ ((length a.path ≡ length b.path) × (a.created ≤ b.created))

abbrev pub IsOrdered : List Cookie → Type 0
IsOrdered [] = Unit
IsOrdered (c ∷ cs) = All (Precedes c) cs × IsOrdered cs

All-Precedes :
    (c : Cookie) (cs : List Cookie) → All (λ d. sent_before c d ≡ true) cs → All (Precedes c) cs
unfolding sent_before
All-Precedes c [] h = tt
All-Precedes c (d ∷ cs) (e, h) = (ground (arith, e), All-Precedes c cs h)

IsSorted-IsOrdered : (cs : List Cookie) → IsSorted sent_before cs → IsOrdered cs
IsSorted-IsOrdered [] h = tt
IsSorted-IsOrdered (c ∷ cs) (e, h) = (All-Precedes c cs e, IsSorted-IsOrdered cs h)

-- The text of a header: names and values with `=`, with `; ` between them.
abbrev pub joined : List Text → Text
joined [] = []
joined (s ∷ []) = s
joined (s ∷ t ∷ l) = s ++ (txt "; " ++ joined (t ∷ l))

serialize-joined :
    (cs : List Cookie) → serialize cs ≡ joined (map (λ c. c.name ++ (txt "=" ++ c.value)) cs)
unfolding serialize
serialize-joined [] = refl
serialize-joined (c ∷ []) = refl
serialize-joined (c ∷ d ∷ cs) =
    ap (λ t. c.name ++ (b'=' ∷ (c.value ++ (txt "; " ++ t)))) (serialize-joined (d ∷ cs))
    ∙ sym (append_assoc c.name (b'=' ∷ c.value) _)

module _ (parse_url : Text → Option Url) (get_domain : Text → Option Text)
    (encode : Text → Text) where
  -- What the header of a request may be.
  unfoldable pub IsAttached :
      SameSitePolicy → Profiles → Text → CookieRequestContext → ℕ → Jars → Option Text → Type 0
  IsAttached policy profiles request_url ctx now jars h =
      (((parse_http_url parse_url request_url ≡ none)
          ⊎ (namespace_for_client encode profiles ctx.client_id ≡ unbound_global_namespace encode))
        × (h ≡ none))
      ⊎ ((u : ParsedUrl) × (sent : List Cookie) × (parse_http_url parse_url request_url ≡ some u)
          × (¬ (
              namespace_for_client encode profiles ctx.client_id ≡ unbound_global_namespace encode))
          × IsOrdered sent
          × (((sent ≡ []) × (h ≡ none))
              ⊎ ((¬ (sent ≡ []))
                  × (h ≡ some (joined (map (λ c. c.name ++ (txt "=" ++ c.value)) sent)))))
          × ((c : Cookie)
              → In c sent ↔ (
                  Held (namespace_for_client encode profiles ctx.client_id) jars c
                  × IsLive now c
                  × Covers u c
                  × MayRide parse_url get_domain policy c u ctx)))

  -- The header of a request is that of a list of cookies, in the order of RFC 6265, that are exactly
  -- those held in the namespace, live, for the address, and free to ride with the request; there is no
  -- header if there is no such cookie, for an address not of the web, and in the unbound namespace.
  pub cookie_header_for-IsAttached :
      (policy : SameSitePolicy) (profiles : Profiles) (request_url : Text)
      (ctx : CookieRequestContext) (now : ℕ) (jars : Jars)
      → IsAttached policy profiles request_url ctx now jars
          (cookie_header_for parse_url get_domain encode policy profiles request_url ctx now jars).0
  unfolding IsAttached cookie_header_for
  cookie_header_for-IsAttached policy profiles request_url ctx now jars =
      let namespace : Text = namespace_for_client encode profiles ctx.client_id in
      elim (Option-cases (parse_http_url parse_url request_url)) [
        | inl n ↦ inl (inl n, ground (arith, n))
        | inr (u, e) ↦ elim (Bool-cases (namespace == unbound_global_namespace encode)) [
          | inl b ↦
              inl (
                inr ((==_iff namespace (unbound_global_namespace encode)).0 b),
                ground (arith, e, b),
              )
          | inr b ↦
              let sent : List Cookie =
                attached parse_url get_domain encode policy u ctx namespace (purge now jars) in
              inr (
                u,
                sent,
                e,
                (λ q. ground (arith, b, (==_iff namespace (unbound_global_namespace encode)).1 q)),
                IsSorted-IsOrdered sent
                    (sent_in_order parse_url get_domain encode policy profiles u ctx namespace []
                      none now (purge now jars)).0,
                elim (List-cases sent) [
                  | inl n ↦ inl (n, ground (arith, e, b, n))
                  | inr (d, ds, n) ↦ inr (
                    (λ q. ground (arith, n, q)),
                    rw (sym (serialize-joined sent)) (ground (arith, e, b, n)),
                  )
                ],
                λ c. ground (
                  arith,
                  In-attached parse_url get_domain encode policy u ctx namespace (purge now jars) c,
                  Held-purge namespace now jars c,
                  in_scope_iff u c,
                  is_live_iff now c,
                  same_site_allows_iff parse_url get_domain policy c u ctx,
                ),
              )
        ]
      ]
