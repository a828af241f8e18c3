-- ===== src/Codec/Handle/Reads.antt =====
-- What the payload of a handle reads as.
use zeolite.Prelude.{
  ℕ, ◌+◌, ◌≡◌, refl, ap, ◌∙◌, true, false, Option, none, some, List, [], ◌∷◌, ◌++◌, length, take,
  drop, find, arith, all_below,
}
use mathlib.Core.List.{append-nil}
use zeolite.Text.{Text, txt, starts_with, includes_unit, index_of, split}
use zeolite.Numbers.{print, all-print}
use zeolite.Url.{Url}
use zeolite.Codec.{Bytes}
use zeolite.Codec.Base64.{letter, b64u_encode}
use zeolite.Codec.Base64.RoundTrip.{b64u_decode-b64u_encode}
use zeolite.Codec.Token.{Utf8}
use zeolite.Codec.Token.Opaque.{take-append}
use zeolite.Codec.Handle.{
  line_end, valid_root, found, mintable_dest, root_binding, read_root, read_fields, read_payload,
}
use zeolite.Codec.Fields.{Lacks, other_letter, b64u_encode-Lacks, split_whole, split_next}
use zeolite.Codec.Handle.Expiry.{drop_past, index_of-digits}

no_letter : all_below (other_letter line_end) 64 ≡ true
unfolding all_below other_letter letter
no_letter = refl

-- A root that is bound is valid, and UTF-8 carries it.
unfoldable pub Bindable : Utf8 → Option Text → Type 0
Bindable utf8 none = Unit
Bindable utf8 (some root) = (valid_root root ≡ true) × (utf8.decode (utf8.encode root) ≡ some root)

module _ (utf8 : Utf8) (parse_url : Text → Option Url) (number : Text → Option ℕ)
    (origin nonce : Text) (one_line : Lacks line_end origin)
    (no_root : starts_with origin (txt "root:") ≡ false) (nonce_line : Lacks line_end nonce) where
  root_fields : Option Text → List Text
  root_fields none = []
  root_fields (some root) = (txt "root:" ++ b64u_encode (utf8.encode root)) ∷ []

  abbrev pub nonce_field : Text
  nonce_field = txt "nonce:" ++ nonce

  nonce_field-Lacks : Lacks line_end nonce_field
  unfolding Lacks includes_unit
  nonce_field-Lacks = nonce_line

  root_field-Lacks : (bytes : Bytes) → Lacks line_end (txt "root:" ++ b64u_encode bytes)
  unfolding Lacks includes_unit
  root_field-Lacks bytes = b64u_encode-Lacks line_end no_letter bytes

  split_fields :
      (root : Option Text)
      → split line_end (nonce_field ++ root_binding utf8 parse_url number root)
        ≡ nonce_field ∷ root_fields root
  unfolding root_binding root_fields
  split_fields none = rw append-nil (split_whole line_end nonce_field nonce_field-Lacks)
  split_fields (some root) =
      split_next line_end nonce_field _ nonce_field-Lacks
      ∙ ap (λ ws. nonce_field ∷ ws)
          (split_whole line_end (txt "root:" ++ b64u_encode (utf8.encode root))
            (root_field-Lacks _))

  root_field : Option Text → Option Text
  root_field none = none
  root_field (some root) = some (txt "root:" ++ b64u_encode (utf8.encode root))

  find-root_fields :
      (root : Option Text)
      → find (λ field. starts_with field (txt "root:")) (origin ∷ nonce_field ∷ root_fields root)
        ≡ root_field root
  unfolding root_field root_fields starts_with
  find-root_fields none = rw no_root refl
  find-root_fields (some root) = rw no_root refl

  read_root-root_field :
      (root : Option Text)
      → Bindable utf8 root
      → read_root utf8 parse_url number (root_field root) ≡ some root
  unfolding read_root root_field Bindable
  read_root-root_field none b = refl
  read_root-root_field (some root) (valid, read) =
      ground
        (arith, b64u_decode-b64u_encode (utf8.encode root) (utf8.encode-IsByte root), read, valid)

  module _ (mints : mintable_dest utf8 parse_url number origin ≡ true) (expires : ℕ) where
    read_fields_with :
        (fields : List Text) (root : Option Text)
        → read_root utf8 parse_url number
            (find (λ field. starts_with field (txt "root:")) (origin ∷ fields))
          ≡ some root
        → read_fields utf8 parse_url number expires (origin ∷ fields)
          ≡ found (record { destination = origin; root_client_id = root; expires = expires })
    unfolding read_fields
    read_fields_with fields root e = ground (arith, e, mints)

    read_payload_with :
        (rest : Text) (colon : ℕ)
        → index_of b':' rest ≡ some colon
        → number (take colon rest) ≡ some expires
        → read_payload utf8 parse_url number rest
          ≡ read_fields utf8 parse_url number expires (split line_end (drop (colon + 1) rest))
    unfolding read_payload
    read_payload_with rest colon e n = ground (arith, e, n)

    pub read_payload-found :
        (root : Option Text)
        → Bindable utf8 root
        → number (print expires) ≡ some expires
        → read_payload utf8 parse_url number (
            print expires
            ++ b':'
              ∷ (origin ++ line_end ∷ (nonce_field ++ root_binding utf8 parse_url number root)))
          ≡ found (record { destination = origin; root_client_id = root; expires = expires })
    read_payload-found root b n =
        let lines = origin ++ line_end ∷ (nonce_field ++ root_binding utf8 parse_url number root) in
        let ds = print expires in
        read_payload_with (ds ++ b':' ∷ lines) (length ds)
          (index_of-digits ds lines (all-print expires))
          (rw (take-append (length ds) ds (b':' ∷ lines) refl) n)
        ∙ ap (λ fields. read_fields utf8 parse_url number expires fields)
            (ap (λ s. split line_end s) (drop_past (length ds + 1) ds lines (omega arith))
              ∙ split_next line_end origin _ one_line
              ∙ ap (λ ws. origin ∷ ws) (split_fields root))
        ∙ read_fields_with (nonce_field ∷ root_fields root) root
            (rw (find-root_fields root) (read_root-root_field root b))
