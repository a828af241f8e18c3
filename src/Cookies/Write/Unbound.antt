-- ===== src/Cookies/Write/Unbound.antt =====
-- What the seams that write cookies do for each client: nothing outside its namespace, and nothing at
-- all for one that is not bound.
use zeolite.Prelude.{
  ℕ, ◌≡◌, refl, ◌∙◌, inl, inr, true, false, Option, List, [], ◌∷◌, Bool-cases, text_eq, ◌==◌,
}
use zeolite.Text.{Text}
use zeolite.Url.{Url}
use zeolite.Cookies.Profiles.{Profiles, namespace_for_client, unbound_global_namespace}
use zeolite.Cookies.Jar.Limits.{outside}
use zeolite.Cookies.Admit.{Store, admit_cookie}
use zeolite.Cookies.Admit.Isolated.{admit_cookie-outside}
use zeolite.Cookies.Write.{
  header_list, strip_http_only, admit_all, apply_set_cookie, document_cookie_write,
}

module _ (parse_url : Text → Option Url) (get_public_suffix : Text → Option Text)
    (encode : Text → Text) where
  outside-admit_all :
      (url : Text) (hs : List Text) (namespace : Text) (now later : ℕ) (s : Store)
      → outside namespace
          (admit_all parse_url get_public_suffix encode url hs namespace now later s).0.jars
        ≡ outside namespace s.jars
  unfolding admit_all
  outside-admit_all url [] n now later s = refl
  outside-admit_all url (h ∷ hs) n now later s =
      outside-admit_all url hs n now later
        (admit_cookie parse_url get_public_suffix url h false n now later s).0
      ∙ admit_cookie-outside parse_url get_public_suffix url h false n now later s

  -- A response and a page write only to the namespace of their client: the buckets of every other
  -- profile are what they were, however many headers there are.
  pub writes-outside :
      (url cookie : Text) (raw : List Text) (joined : Option Text) (profiles : Profiles)
      (client : Option Text) (now later : ℕ) (s : Store)
      → let namespace = namespace_for_client encode profiles client in
        (outside namespace
            (apply_set_cookie parse_url get_public_suffix encode url raw joined profiles client now
              later s).0.jars
          ≡ outside namespace s.jars)
        × (outside namespace
              (document_cookie_write parse_url get_public_suffix encode url cookie profiles client
                now later s).0.jars
            ≡ outside namespace s.jars)
  unfolding apply_set_cookie document_cookie_write
  writes-outside url cookie raw joined profiles client now later s =
      let n : Text = namespace_for_client encode profiles client in
      elim (Bool-cases (n == unbound_global_namespace encode)) [
        | inl e ↦ rw (e, apply_set_cookie, document_cookie_write) (refl, refl)
        | inr e ↦
            rw (e, apply_set_cookie, document_cookie_write)
              (
                outside-admit_all url (header_list raw joined) n now later s,
                admit_cookie-outside parse_url get_public_suffix url (strip_http_only cookie) true n
                    now later s,
              )
      ]

  -- A client of the shared unbound namespace writes nothing, through neither seam.
  pub writes-unbound :
      (url cookie : Text) (raw : List Text) (joined : Option Text) (profiles : Profiles)
      (client : Option Text) (now later : ℕ) (s : Store)
      → namespace_for_client encode profiles client == unbound_global_namespace encode ≡ true
      → ((apply_set_cookie parse_url get_public_suffix encode url raw joined profiles client now
            later s).0
          ≡ s)
        × ((document_cookie_write parse_url get_public_suffix encode url cookie profiles client now
              later s).0
            ≡ s)
  unfolding apply_set_cookie document_cookie_write
  writes-unbound url cookie raw joined profiles client now later s e =
      rw (e, apply_set_cookie, document_cookie_write) (refl, refl)
