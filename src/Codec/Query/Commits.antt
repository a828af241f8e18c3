-- ===== src/Codec/Query/Commits.antt =====
-- A committed query route names the page that it was built for, and carries one engine token.
use zeolite.Prelude.{
  ℕ, ◌≡◌, sym, ap, ◌∙◌, true, Option, none, some, List, [], ◌∷◌, ◌++◌, ◌==◌, text_eq, drop, filter,
  All, Bool-cases, inl, inr, arith,
}
use mathlib.Core.List.{append-nil, append_assoc}
use zeolite.Text.{Text, starts_with, split}
use zeolite.Url.{Url}
use zeolite.Codec.Token.{Utf8}
use zeolite.Codec.Route.{Routes}
use zeolite.Codec.Handle.{
  decode_nav_handle, decode_expired_nav_handle, decode_nav_handle_info, decode_nav_handle_root,
}
use zeolite.Codec.Query.{
  navq_head, amp, join, raw_search, Scan, navq_engine_origin, live_origin, kept_part, scan_part,
  scan_parts, kept_parts,
}
use zeolite.Codec.Fields.{Lacks, split_whole, split_next, split-All}

abbrev pub IsPart : Text → Type 0
IsPart s = Lacks amp s

pub split-join :
    (p : Text) (ps : List Text) → All IsPart (p ∷ ps) → split amp (join (p ∷ ps)) ≡ p ∷ ps
unfolding join
split-join p [] (h, v) = split_whole amp p h
split-join p (q ∷ ps) (h, v) =
    split_next amp p (join (q ∷ ps)) h ∙ ap (λ ws. p ∷ ws) (split-join q ps v)

module _ (utf8 : Utf8) (parse_url : Text → Option Url) (number : Text → Option ℕ) (r : Routes) where
  -- Whether a token is the engine's does not change with time.
  engine_origin_later :
      (token : Text) (now later : ℕ)
      → navq_engine_origin utf8 parse_url number r now token
        ≡ navq_engine_origin utf8 parse_url number r later token
  unfolding navq_engine_origin decode_nav_handle decode_nav_handle_info decode_expired_nav_handle
  engine_origin_later token now later = ground arith

  -- A part that stays is none of the engine's, at any time.
  kept_part_later :
      (part : Text) (now later : ℕ)
      → kept_part utf8 parse_url number r now part ≡ kept_part utf8 parse_url number r later part
  unfolding kept_part
  kept_part_later part now later = ground (arith, engine_origin_later (drop 7 part) now later)

  live_none :
      (token : Text) (now : ℕ)
      → navq_engine_origin utf8 parse_url number r now token ≡ none
      → live_origin utf8 parse_url number r now token ≡ none
  unfolding navq_engine_origin live_origin
  live_none token now e = ground (arith, e)

  scan_part-kept :
      (part : Text) (now : ℕ) (s : Scan)
      → kept_part utf8 parse_url number r now part ≡ true
      → scan_part utf8 parse_url number r now part s ≡ record s { keep = s.keep ++ part ∷ [] }
  unfolding scan_part kept_part
  scan_part-kept part now s k = ground (arith, k, live_none (drop 7 part) now)

  unfoldable pub Stays : ℕ → Text → Type 0
  Stays now part = kept_part utf8 parse_url number r now part ≡ true

  pub scan_parts-kept :
      (ps : List Text) (now : ℕ) (s : Scan) (last : Text)
      → All (Stays now) ps
      → scan_parts utf8 parse_url number r now (ps ++ last ∷ []) s
        ≡ scan_part utf8 parse_url number r now last (record s { keep = s.keep ++ ps })
  unfolding scan_parts Stays
  scan_parts-kept [] now s last v =
      ap (λ k. scan_part utf8 parse_url number r now last (record s { keep = k }))
        (sym (append-nil s.keep))
  scan_parts-kept (p ∷ ps) now s last (h, v) =
      ap (scan_parts utf8 parse_url number r now (ps ++ last ∷ [])) (scan_part-kept p now s h)
      ∙ (scan_parts-kept ps now (record s { keep = s.keep ++ p ∷ [] }) last v
          ∙ ap (λ k. scan_part utf8 parse_url number r now last (record s { keep = k }))
              (append_assoc s.keep (p ∷ []) ps))

  pub scan_part-token :
      (token o : Text) (now : ℕ) (keep : List Text)
      → live_origin utf8 parse_url number r now token ≡ some o
      → scan_part utf8 parse_url number r now
          (navq_head ++ token)
          (record { keep = keep; origin = none; root = none })
        ≡ record {
          keep = keep;
          origin = some o;
          root = decode_nav_handle_root utf8 parse_url number r token;
        }
  unfolding scan_part starts_with
  scan_part-token token o now keep e = ground (arith, e)

  filter-Stays :
      (ps : List Text) (now later : ℕ)
      → All (Stays later) (filter (kept_part utf8 parse_url number r now) ps)
  unfolding Stays
  filter-Stays [] now later = tt
  filter-Stays (p ∷ ps) now later = elim (Bool-cases (kept_part utf8 parse_url number r now p)) [
    | inl k ↦ rw k (sym (kept_part_later p now later) ∙ k, filter-Stays ps now later)
    | inr k ↦ rw k (filter-Stays ps now later)
  ]

  filter-IsPart :
      (ps : List Text) (now : ℕ)
      → All IsPart ps
      → All IsPart (filter (kept_part utf8 parse_url number r now) ps)
  filter-IsPart [] now v = tt
  filter-IsPart (p ∷ ps) now (h, v) = elim (Bool-cases (kept_part utf8 parse_url number r now p)) [
    | inl k ↦ rw k (h, filter-IsPart ps now v)
    | inr k ↦ rw k (filter-IsPart ps now v)
  ]

  pub kept_parts-Stays :
      (search : Text) (now later : ℕ)
      → All (Stays later) (kept_parts utf8 parse_url number r now search)
        × All IsPart (kept_parts utf8 parse_url number r now search)
  unfolding kept_parts
  kept_parts-Stays search now later = elim (Bool-cases (search == [])) [
    | inl empty ↦ rw empty (tt, tt)
    | inr full ↦ rw full (
      filter-Stays (split amp (raw_search search)) now later,
      filter-IsPart (split amp (raw_search search)) now (split-All amp (raw_search search)),
    )
  ]
