-- ===== src/Csp/Gate.antt =====
-- What the gate blocks.
use zeolite.Prelude.{
  ◌≡◌, ◌↔◌, ◌⊎◌, inl, inr, refl, true, false, Option, none, some, List, [], ◌∷◌, leb, ◌==◌, text_eq,
  length, any, Option-cases, Bool-cases, arith,
}
use zeolite.Prelude.Maps.{get}
use zeolite.Text.{Text}
use zeolite.Url.{Url}
use zeolite.Csp.{
  CspSource, CspEnginePlan, CspRegistry, source_matches, dest_directive, is_web, decide, decide_by,
  no_lists, gate_url, gate_client, csp_gate,
}

-- The list that decides for a directive: its own, or else the default one.
unfoldable pub Governs : CspEnginePlan → Text → List CspSource → Type 0
Governs plan directive sources =
    (get directive plan.sources ≡ some sources)
    ⊎ ((get directive plan.sources ≡ none) × (plan.default_src ≡ some sources))

unfoldable pub Mismatched : CspEnginePlan → Text → Url → Type 0
Mismatched plan directive u =
    (sources : List CspSource) × Governs plan directive sources
    × (any (λ s. source_matches s u plan) sources ≡ false)

decide_by-Mismatched :
    (directive : Text) (u : Url) (plan : CspEnginePlan)
    → ((decide_by directive u plan).blocked ≡ true) ↔ Mismatched plan directive u
unfolding decide_by decide Mismatched Governs
decide_by-Mismatched directive u plan = elim (Option-cases (get directive plan.sources)) [
  | inr (own, g) ↦ (
    (λ b. (own, inl g, ground (arith, b, g))),
    λ m. let (s, v, miss) = m in ground (arith, g, v, miss),
  )
  | inl g ↦ elim (Option-cases plan.default_src) [
    | inr (rest, d) ↦ (
      (λ b. (rest, inr (g, d), ground (arith, b, g, d))),
      λ m. let (s, v, miss) = m in ground (arith, g, d, v, miss),
    )
    | inl d ↦ (
      (λ b. absurd (ground (arith, b, g, d))),
      λ m. let (s, v, miss) = m in absurd (ground (arith, g, d, v)),
    )
  ]
]

get_none :
    (directive : Text) (m : List (Text × List CspSource))
    → leb (length m) 0 ≡ true
    → get directive m ≡ none
unfolding get
get_none directive [] h = refl
get_none directive (e ∷ m) h = absurd (ground (arith, h))

-- A plan without lists has none for a directive.
no_lists-Governs :
    (plan : CspEnginePlan) (directive : Text) (sources : List CspSource)
    → no_lists plan ≡ true
    → ¬ Governs plan directive sources
unfolding Governs
no_lists-Governs plan directive sources h g = ground (arith, h, g, get_none directive plan.sources)

module _ (parse_url : Text → Option Url) where
  -- The request is one for a web address that the list of the plan does not admit.
  unfoldable pub Refuses : CspEnginePlan → Text → Text → Type 0
  Refuses plan directive abs_url =
      (u : Url) × (parse_url abs_url ≡ some u) × (is_web u ≡ true) × Mismatched plan directive u

  gate_url-Refuses :
      (directive : Text) (plan : CspEnginePlan) (abs_url : Text)
      → ((gate_url parse_url directive plan abs_url).blocked ≡ true)
        ↔ Refuses plan directive abs_url
  unfolding gate_url Refuses Mismatched
  gate_url-Refuses directive plan abs_url = elim (Bool-cases (no_lists plan)) [
    | inl bare ↦ (
      (λ b. absurd (ground (arith, b, bare))),
      λ r.
          let (u, p, w, m) = r in
          let (sources, g, miss) = m in absurd (no_lists-Governs plan directive sources bare g),
    )
    | inr listed ↦ elim (Option-cases (parse_url abs_url)) [
      | inl p ↦ (
        (λ b. absurd (ground (arith, b, listed, p))),
        λ r. let (u, q, w, m) = r in absurd (ground (arith, p, q)),
      )
      | inr (u, p) ↦ elim (Bool-cases (is_web u)) [
        | inl w ↦ (
          (λ b. (
            u,
            p,
            w,
            (decide_by-Mismatched directive u plan).0 (ground (arith, b, listed, p, w)),
          )),
          λ r.
              let (v, q, w', m) = r in
              let same : v ≡ u = ground (arith, p, q) in
              let back = (decide_by-Mismatched directive u plan).1 (rw same at m) in
              ground (arith, listed, p, w, back),
        )
        | inr w ↦ (
          (λ b. absurd (ground (arith, b, listed, p, w))),
          λ r. let (v, q, w', m) = r in absurd (ground (arith, p, q, w, w')),
        )
      ]
    ]
  ]

  -- The client has a plan, and the request is of a class that a directive governs.
  unfoldable pub Blocks : CspRegistry → Option Text → Text → Text → Type 0
  Blocks reg client_id dest abs_url =
      (id : Text) × (directive : Text) × (plan : CspEnginePlan) × (client_id ≡ some id)
      × ((id == []) ≡ false)
      × (get dest dest_directive ≡ some directive)
      × (get id reg ≡ some plan)
      × Refuses plan directive abs_url

  -- The gate blocks a request exactly if its client has a plan, its class has a directive, its address
  -- is one of the web, and the list that decides does not admit the address: the plan's list of that
  -- directive, or the default list where the plan has none for it, be it that the policy names no such
  -- directive or that its list could not be verified.
  pub csp_gate-Blocks :
      (reg : CspRegistry) (client_id : Option Text) (dest abs_url : Text)
      → ((csp_gate parse_url reg client_id dest abs_url).blocked ≡ true)
        ↔ Blocks reg client_id dest abs_url
  unfolding csp_gate gate_client Blocks
  csp_gate-Blocks reg client_id dest abs_url = elim (Option-cases (get dest dest_directive)) [
    | inl n ↦ (
      (λ b. absurd (ground (arith, b, n))),
      λ v. let (id, directive, plan, c, f, d, g, r) = v in absurd (ground (arith, n, d)),
    )
    | inr (directive, d) ↦ elim (Option-cases client_id) [
      | inl n ↦ (
        (λ b. absurd (ground (arith, b, d, n))),
        λ v. let (id, other, plan, c, f, e, g, r) = v in absurd (ground (arith, n, c)),
      )
      | inr (id, c) ↦ elim (Bool-cases (id == [])) [
        | inl empty ↦ (
          (λ b. absurd (ground (arith, b, d, c, empty))),
          λ v.
              let (jd, other, plan, c', f, e, g, r) = v in absurd (ground (arith, c, c', f, empty)),
        )
        | inr f ↦ elim (Option-cases (get id reg)) [
          | inl n ↦ (
            (λ b. absurd (ground (arith, b, d, c, f, n))),
            λ v. let (jd, other, plan, c', f', e, g, r) = v in absurd (ground (arith, c, c', n, g)),
          )
          | inr (plan, g) ↦ (
            (λ b. (
              id,
              directive,
              plan,
              c,
              f,
              d,
              g,
              (gate_url-Refuses directive plan abs_url).0 (ground (arith, b, d, c, f, g)),
            )),
            λ v.
                let (jd, other, plan', c', f', e, g', r) = v in
                let same_id : jd ≡ id = ground (arith, c, c') in
                let same_name : other ≡ directive = ground (arith, d, e) in
                let same_plan : plan' ≡ plan = ground (arith, g, rw same_id at g') in
                let back =
                  (gate_url-Refuses directive plan abs_url).1 (rw (same_name, same_plan) at r) in
                ground (arith, d, c, f, g, back),
          )
        ]
      ]
    ]
  ]
