-- ===== src/Codec/Route/Prefix.antt =====
-- A safe prefix: kept by every change of the routes, and apart from the engine's own paths.
use zeolite.Prelude.{
  ◌≡◌, refl, Bool, true, false, not, Option, some, List, [], ◌∷◌, ◌++◌, arith, eqb_iff, ◌==◌,
  ==_iff, text_eq, list_beq, any, all, Bool-cases, Option-cases, inl, inr,
}
use zeolite.Text.{Text, starts_with, includes_unit}
use zeolite.Codec.Route.{
  Routes, initial, closed_segment, scheme_segment, reserved_scheme_segments, valid_scheme_prefix,
  set_scheme, set_route_key, set_route_keys, is_engine_path, engine_assets, is_engine_asset,
}

-- What a page or a host can ask of the routes.
pub data Change : Type 0 where
  scheme : Text → Change
  route_key : Option Text → Change
  route_keys : List Text → Change

unfoldable pub change : Change → Routes → Routes
change (scheme p) r = (set_scheme p r).1
change (route_key b64) r = set_route_key b64 r
change (route_keys b64s) r = set_route_keys b64s r

unfoldable pub run : List Change → Routes → Routes
run [] r = r
run (c ∷ cs) r = run cs (change c r)

pub HasValidPrefix : Routes → Type 0
HasValidPrefix r = valid_scheme_prefix r.prefix ≡ true

change-HasValidPrefix : (c : Change) (r : Routes) → HasValidPrefix r → HasValidPrefix (change c r)
unfolding HasValidPrefix change set_scheme set_route_key set_route_keys
change-HasValidPrefix (scheme p) r v = ground (arith, v)
change-HasValidPrefix (route_key b64) r v = v
change-HasValidPrefix (route_keys b64s) r v = v

run-HasValidPrefix : (cs : List Change) (r : Routes) → HasValidPrefix r → HasValidPrefix (run cs r)
unfolding run
run-HasValidPrefix [] r v = v
run-HasValidPrefix (c ∷ cs) r v = run-HasValidPrefix cs (change c r) (change-HasValidPrefix c r v)

initial-HasValidPrefix : HasValidPrefix initial
unfolding HasValidPrefix valid_scheme_prefix scheme_segment closed_segment starts_with list_beq
initial-HasValidPrefix = refl

closed_segment-some :
    (s seg : Text)
    → closed_segment s ≡ some seg
    → (s ≡ seg ++ b'/' ∷ []) × (includes_unit b'/' seg ≡ false)
unfolding closed_segment includes_unit
closed_segment-some [] seg e = absurd cc
closed_segment-some (c ∷ []) seg e = ground (arith, e, eqb_iff c b'/')
closed_segment-some (c ∷ d ∷ s) [] e = ground (arith, e, closed_segment-some (d ∷ s))
closed_segment-some (c ∷ d ∷ s) (x ∷ seg) e = ground (arith, e, closed_segment-some (d ∷ s) seg)

scheme_segment-some :
    (p seg : Text)
    → scheme_segment p ≡ some seg
    → (p ≡ b'/' ∷ (seg ++ b'/' ∷ [])) × (includes_unit b'/' seg ≡ false)
unfolding scheme_segment
scheme_segment-some [] seg e = absurd cc
scheme_segment-some (c ∷ s) seg e = ground (arith, e, closed_segment-some s seg, eqb_iff c b'/')

-- A segment of the engine's own is not the one of a valid prefix.
IsReserved : Text → Type 0
IsReserved seg = any (λ r. r == seg) reserved_scheme_segments ≡ true

valid_prefix_shape :
    (p : Text)
    → valid_scheme_prefix p ≡ true
    → (seg : Text) × (p ≡ b'/' ∷ (seg ++ b'/' ∷ []))
      × (includes_unit b'/' seg ≡ false)
      × (IsReserved seg → false ≡ true)
unfolding valid_scheme_prefix IsReserved
valid_prefix_shape p v = elim (Option-cases (scheme_segment p)) [
  | inl n ↦ absurd (ground (arith, v, n))
  | inr (seg, e) ↦
      let (shape, plain) = scheme_segment-some p seg e in
      (seg, shape, plain, λ h. ground (arith, v, e, h))
]

starts_with-slash :
    (s seg : Text) → starts_with s (seg ++ b'/' ∷ []) ≡ true → includes_unit b'/' s ≡ true
unfolding starts_with includes_unit
starts_with-slash [] [] e = absurd (ground (arith, e))
starts_with-slash [] (x ∷ seg) e = absurd (ground (arith, e))
starts_with-slash (c ∷ s) [] e = ground (arith, e)
starts_with-slash (c ∷ s) (x ∷ seg) e = ground (arith, e, starts_with-slash s seg)

starts_with-same_segment :
    (a seg rest : Text)
    → includes_unit b'/' a ≡ false
    → includes_unit b'/' seg ≡ false
    → starts_with (a ++ b'/' ∷ rest) (seg ++ b'/' ∷ []) ≡ true
    → a ≡ seg
unfolding starts_with includes_unit
starts_with-same_segment [] [] rest p q e = refl
starts_with-same_segment [] (x ∷ seg) rest p q e = absurd (ground (arith, p, q, e, eqb_iff b'/' x))
starts_with-same_segment (c ∷ a) [] rest p q e = absurd (ground (arith, p, q, e))
starts_with-same_segment (c ∷ a) (x ∷ seg) rest p q e =
    ground (arith, p, q, e, eqb_iff c x, starts_with-same_segment a seg rest)

starts_with_refl : (s : Text) → starts_with s s ≡ true
unfolding starts_with
starts_with_refl [] = refl
starts_with_refl (c ∷ s) = ground (arith, eqb_iff c c, starts_with_refl s)

is_engine_path-starts_with :
    (r : Routes) (path : Text) → is_engine_path r path ≡ true → starts_with path r.prefix ≡ true
unfolding is_engine_path
is_engine_path-starts_with r path e = elim (Bool-cases (path == r.prefix)) [
  | inl same ↦ rw ((==_iff path r.prefix).0 same) (starts_with_refl r.prefix)
  | inr other ↦ ground (arith, e, other)
]

any-all :
    (p : Text → Bool) (x : Text) (xs : List Text)
    → all p xs ≡ true
    → any (λ a. a == x) xs ≡ true
    → p x ≡ true
any-all p x [] h e = absurd cc
any-all p x (a ∷ xs) h e = elim (Bool-cases (a == x)) [
  | inl same ↦ rw (← (==_iff a x).0 same) (ground (arith, h))
  | inr other ↦ any-all p x xs (ground (arith, h)) (ground (arith, e, other))
]

-- A path of one segment only.
is_flat : Text → Bool
is_flat [] = false
is_flat (c ∷ s) = not (includes_unit b'/' s)

is_flat-assets : all is_flat engine_assets ≡ true
unfolding is_flat includes_unit
is_flat-assets = refl

is_flat-reserved : all (λ s. not (includes_unit b'/' s)) reserved_scheme_segments ≡ true
unfolding includes_unit
is_flat-reserved = refl

flat_path-starts_with :
    (path seg : Text)
    → is_flat path ≡ true
    → starts_with path (b'/' ∷ (seg ++ b'/' ∷ [])) ≡ true
    → false ≡ true
unfolding is_flat starts_with
flat_path-starts_with [] seg h e = absurd (ground (arith, h))
flat_path-starts_with (c ∷ s) seg h e = ground (arith, h, e, starts_with-slash s seg)

module _ (r : Routes) (v : HasValidPrefix r) where
  asset-is_engine_path : (path : Text) → is_engine_asset path ≡ true → is_engine_path r path ≡ false
  unfolding HasValidPrefix is_engine_asset
  asset-is_engine_path path a = elim (Bool-cases (is_engine_path r path)) [
    | inr e ↦ e
    | inl e ↦
        let (seg, shape, _, _) = valid_prefix_shape r.prefix v in
        let flat = any-all is_flat path engine_assets is_flat-assets a in
        absurd (
          ground (
            arith,
            flat_path-starts_with path seg flat (rw shape at (is_engine_path-starts_with r path e)),
          ))
  ]

  reserved-is_engine_path :
      (seg rest : Text) → IsReserved seg → is_engine_path r (b'/' ∷ (seg ++ b'/' ∷ rest)) ≡ false
  unfolding HasValidPrefix IsReserved starts_with
  reserved-is_engine_path seg rest a =
      elim (Bool-cases (is_engine_path r (b'/' ∷ (seg ++ b'/' ∷ rest)))) [
        | inr e ↦ e
        | inl e ↦
            let (own, shape, plain, free) = valid_prefix_shape r.prefix v in
            let flat =
              any-all (λ s. not (includes_unit b'/' s)) seg reserved_scheme_segments
                is_flat-reserved a in
            let begins = rw shape at (is_engine_path-starts_with r _ e) in
            let same = starts_with-same_segment seg own rest (ground (arith, flat)) plain begins in
            absurd (ground (arith, free (rw (← same) a)))
      ]

-- Whatever prefixes and keys were asked for since the start, the prefix in force is a valid one, and
-- neither a file of the engine nor a path under a reserved segment counts as an engine route.
pub run-is_engine_path :
    (cs : List Change) (path seg rest : Text)
    → is_engine_asset path ≡ true
    → any (λ r. r == seg) reserved_scheme_segments ≡ true
    → HasValidPrefix (run cs initial)
      × (is_engine_path (run cs initial) path ≡ false)
      × (is_engine_path (run cs initial) (b'/' ∷ (seg ++ b'/' ∷ rest)) ≡ false)
unfolding IsReserved
run-is_engine_path cs path seg rest a b =
    let v = run-HasValidPrefix cs initial initial-HasValidPrefix in
    (
      v,
      asset-is_engine_path (run cs initial) v path a,
      reserved-is_engine_path (run cs initial) v seg rest b,
    )
