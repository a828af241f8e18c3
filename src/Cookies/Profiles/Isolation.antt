-- ===== src/Cookies/Profiles/Isolation.antt =====
-- What `setJarProfile` of app/src/cookies.ts does to the profile that each client reads and writes.
use zeolite.Prelude.{ℕ, ◌≡◌, ◌≢◌, Option, some, List, ◌∷◌, arith, or_else, text_eq, list_beq_iff}
use zeolite.Prelude.Maps.{get, get-set}
use zeolite.Text.{Text}
use zeolite.Cookies.Profiles.{
  Profiles, root_of, active_profile, effective_profile, set_client_profile,
}

-- The session that an assignment binds the client to.
abbrev pub bound_root : Profiles → Text → Text
bound_root s client = or_else (root_of s (some client)) client

abbrev pub assigned :
    {V : Type 0} → (Text → Text) → Option Text → Text → Profiles → List (Text × V) → Profiles
assigned encode p client s jars = (set_client_profile encode p client s jars).0

module _ {V : Type 0} (encode : Text → Text) (p : Option Text) (s : Profiles)
    (jars : List (Text × V)) where
  root-client :
      (c : ℕ) (id : Text)
      → root_of (assigned encode p (c ∷ id) s jars) (some (c ∷ id)) ≡ some (bound_root s (c ∷ id))
  unfolding root_of set_client_profile
  root-client c id = ground (
    arith,
    get-set (c ∷ id) (c ∷ id) (bound_root s (c ∷ id)) s.client_roots,
    list_beq_iff (c ∷ id) (c ∷ id),
  )

  root-other :
      (c d : ℕ) (id other_id : Text)
      → (d ∷ other_id) ≢ (c ∷ id)
      → (d ∷ other_id) ≢ bound_root s (c ∷ id)
      → root_of (assigned encode p (c ∷ id) s jars) (some (d ∷ other_id))
        ≡ root_of s (some (d ∷ other_id))
  unfolding root_of set_client_profile
  root-other c d id other_id a b = ground (
    arith,
    get-set (c ∷ id) (d ∷ other_id) (bound_root s (c ∷ id)) s.client_roots,
    get-set (bound_root s (c ∷ id)) (d ∷ other_id) (effective_profile p) s.root_profiles,
    list_beq_iff (c ∷ id) (d ∷ other_id),
    list_beq_iff (bound_root s (c ∷ id)) (d ∷ other_id),
  )

  -- A client that is assigned a profile reads and writes that profile from then on.
  pub active_profile-assigned :
      (c x : ℕ) (id r : Text)
      → bound_root s (c ∷ id) ≡ x ∷ r
      → active_profile (assigned encode p (c ∷ id) s jars) (some (c ∷ id)) ≡ effective_profile p
  unfolding active_profile set_client_profile
  active_profile-assigned c x id r h = ground (
    arith,
    root-client c id,
    get-set (bound_root s (c ∷ id)) (x ∷ r) (effective_profile p) s.root_profiles,
    list_beq_iff (x ∷ r) (x ∷ r),
  )

  -- The clients of other sessions keep their profile.
  pub active_profile-others :
      (c d y : ℕ) (id other_id r pid : Text)
      → (d ∷ other_id) ≢ (c ∷ id)
      → (d ∷ other_id) ≢ bound_root s (c ∷ id)
      → root_of s (some (d ∷ other_id)) ≡ some (y ∷ r)
      → (y ∷ r) ≢ bound_root s (c ∷ id)
      → get (y ∷ r) s.root_profiles ≡ some pid
      → (active_profile (assigned encode p (c ∷ id) s jars) (some (d ∷ other_id)) ≡ pid)
        × (active_profile s (some (d ∷ other_id)) ≡ pid)
  unfolding active_profile set_client_profile
  active_profile-others c d y id other_id r pid a b e f g = ground (
    arith,
    root-other c d id other_id a b,
    get-set (bound_root s (c ∷ id)) (y ∷ r) (effective_profile p) s.root_profiles,
    list_beq_iff (bound_root s (c ∷ id)) (y ∷ r),
  )
