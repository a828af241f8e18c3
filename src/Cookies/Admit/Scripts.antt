-- ===== src/Cookies/Admit/Scripts.antt =====
-- What a script's Set-Cookie deletion leaves alone in app/src/cookies.ts: cookies that are HttpOnly.
use zeolite.Prelude.{
  ◌≡◌, refl, Bool, true, false, none, List, [], ◌∷◌, ◌++◌, inl, inr, arith, Bool-cases,
  Option-cases, filter, text_eq,
}
use zeolite.Text.{Text}
use zeolite.Cookies.{Cookie}
use zeolite.Cookies.Jar.{Jars, retain}
use zeolite.Cookies.Request.{Request}
use zeolite.Cookies.Admit.{Store, retires, delete_copies, copies, earliest}

-- The cookies of all the buckets that a test chooses, in order.
abbrev pub chosen : (Cookie → Bool) → Jars → List Cookie
chosen p [] = []
chosen p ((k, l) ∷ m) = filter p l ++ chosen p m

filter-filter :
    (p q : Cookie → Bool)
    → ((c : Cookie) → p c ≡ true → q c ≡ true)
    → (l : List Cookie) → filter p (filter q l) ≡ filter p l
filter-filter p q h [] = refl
filter-filter p q h (c ∷ l) = elim (Bool-cases (p c)) [
  | inl e ↦ ground (arith, h c e, filter-filter p q h l)
  | inr e ↦ ground (arith, filter-filter p q h l)
]

-- What a filter of the store keeps of a kind that it spares.
pub chosen-retain :
    (p : Cookie → Bool) (keep : Text → Cookie → Bool)
    → ((k : Text) (c : Cookie) → p c ≡ true → keep k c ≡ true)
    → (m : Jars) → chosen p (retain keep m) ≡ chosen p m
unfolding retain
chosen-retain p keep h [] = refl
chosen-retain p keep h ((k, l) ∷ m) =
    ground (arith, chosen-retain p keep h m, filter-filter p (keep k) (h k) l)

spares : (r : Request) (c : Cookie) → c.http_only ≡ true → retires true r c ≡ false
spares r c h = ground arith

-- A script that deletes a cookie takes no HttpOnly cookie from any bucket, whatever it names.
pub delete_copies-http_only :
    (r : Request) (namespace : Text) (s : Store)
    → chosen (λ c. c.http_only) (delete_copies true r namespace s).0.jars
      ≡ chosen (λ c. c.http_only) s.jars
unfolding delete_copies
delete_copies-http_only r namespace s =
    elim (Option-cases
      (earliest none (filter (λ (k, i, c). retires true r c) (copies r namespace s.jars)))) [
        | inl e ↦ rw (e, chosen, delete_copies) refl
        | inr (x, e) ↦
            rw (e, chosen, delete_copies)
              (chosen-retain (λ c. c.http_only) _ (λ k c h. ground (arith, spares r c h)) s.jars)
      ]
