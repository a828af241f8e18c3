-- ===== src/CrossOrigin/Cors.antt =====
-- The CORS headers of app/src/cors.ts and the answers to preflights of app/src/foreign.ts.
use zeolite.Prelude.{
  ◌≡◌, refl, ◌∙◌, Bool, true, false, Option, none, some, List, [], ◌∷◌, ◌++◌, ◌==◌, ==_iff, text_eq,
  any, or_else, if◌then◌else◌, arith, list_beq,
}
use zeolite.Prelude.Maps.{get, set, delete, get-set, get-delete}
use zeolite.Text.{Text, txt}
use zeolite.Codec.Challenge.{filled}

abbrev pub Headers : Type 0
Headers = List (Text × Text)

abbrev pub allow_origin : Text
allow_origin = txt "access-control-allow-origin"

abbrev pub allow_credentials : Text
allow_credentials = txt "access-control-allow-credentials"

abbrev pub allow_headers : Text
allow_headers = txt "access-control-allow-headers"

abbrev pub allow_methods : Text
allow_methods = txt "access-control-allow-methods"

abbrev pub max_age : Text
max_age = txt "access-control-max-age"

abbrev pub cors_response_headers : List Text
cors_response_headers =
    allow_origin
    ∷ allow_credentials
    ∷ allow_methods
    ∷ allow_headers
    ∷ txt "access-control-expose-headers"
    ∷ max_age
    ∷ []

unfoldable pub engine_cors_values : Text → Text → Headers
engine_cors_values engine_origin credentials =
    if credentials == txt "omit"
    then (allow_origin, txt "*") ∷ []
    else (allow_origin, engine_origin) ∷ (allow_credentials, txt "true") ∷ []

unfoldable pub delete_all : List Text → Headers → Headers
delete_all [] out = out
delete_all (k ∷ ks) out = delete_all ks (delete k out)

unfoldable pub set_all : Headers → Headers → Headers
set_all [] out = out
set_all ((k, v) ∷ kvs) out = set_all kvs (set k v out)

unfoldable pub apply_engine_cors : Headers → Text → Text → Headers
apply_engine_cors out engine_origin credentials =
    set_all (engine_cors_values engine_origin credentials) (delete_all cors_response_headers out)

-- The answer to a page's preflight.
unfoldable pub preflight_headers : Option Text → Option Text → Text → Text → Headers
preflight_headers request_method request_headers credentials engine_origin =
    (allow_origin, engine_origin)
      ∷ (allow_methods, or_else (filled request_method) (txt "GET"))
      ∷ (max_age, txt "86400")
      ∷ elim (filled request_headers) [ none ↦ [] | some list ↦ (allow_headers, list) ∷ [] ]
    ++ (if credentials == txt "include" then (allow_credentials, txt "true") ∷ [] else [])

get-delete_all :
    (ks : List Text) (k : Text) (out : Headers)
    → get k (delete_all ks out) ≡ (if any (λ j. j == k) ks then none else get k out)
unfolding delete_all
get-delete_all [] k out = refl
get-delete_all (j ∷ ks) k out =
    get-delete_all ks k (delete j out) ∙ ground (arith, get-delete j k out)

-- Two headers of different names.
differ : (allow_credentials == allow_origin) ≡ false
unfolding list_beq
differ = refl

get-set_all :
    (engine_origin credentials k : Text) (m : Headers)
    → get k (set_all (engine_cors_values engine_origin credentials) m)
      ≡ elim (get k (engine_cors_values engine_origin credentials)) [
        | some v ↦ some v
        | none ↦ get k m
      ]
unfolding engine_cors_values set_all get
get-set_all engine_origin credentials k m = ground (
  arith,
  get-set allow_origin k (txt "*") m,
  get-set allow_origin k engine_origin m,
  get-set allow_credentials k (txt "true") (set allow_origin engine_origin m),
  ==_iff allow_origin k,
  ==_iff allow_credentials k,
  differ,
  ==_iff allow_credentials allow_origin,
)

values_within :
    (engine_origin credentials k : Text)
    → any (λ j. j == k) cors_response_headers ≡ false
    → get k (engine_cors_values engine_origin credentials) ≡ none
unfolding engine_cors_values get
values_within engine_origin credentials k h = ground (arith, h)

merged :
    (c : Bool) (own rest other : Option Text)
    → rest ≡ (if c then none else other)
    → (c ≡ false → own ≡ none)
    → elim own [ some v ↦ some v | none ↦ rest ] ≡ (if c then own else other)
merged true none rest other e h = e
merged true (some v) rest other e h = refl
merged false own rest other e h = rw (h refl) e

-- The response shows for a CORS header what the engine says of itself, and nothing that the target said;
-- every other header is the target's.
pub get-apply_engine_cors :
    (out : Headers) (engine_origin credentials k : Text)
    → get k (apply_engine_cors out engine_origin credentials) ≡ (
        if any (λ j. j == k) cors_response_headers
        then get k (engine_cors_values engine_origin credentials)
        else get k out)
unfolding apply_engine_cors
get-apply_engine_cors out engine_origin credentials k =
    get-set_all engine_origin credentials k (delete_all cors_response_headers out)
    ∙ merged (any (λ j. j == k) cors_response_headers) _ _ _
        (get-delete_all cors_response_headers k out) (values_within engine_origin credentials k)
