-- ===== src/Cookies/Profiles.antt =====
-- The jar profiles of app/src/cookies.ts: which namespace of the jar a client reads and writes.
-- `encodeURIComponent` is an argument where a namespace is spelled.
pub mod Isolation
use zeolite.Prelude.{
  ℕ, suc, ◌+◌, Bool, true, false, not, ◌&&◌, ◌||◌, Option, none, some, List, [], ◌∷◌, ◌++◌,
  if◌then◌else◌, eqb, ltb, leb, is_some, or_else, any, filter, length, text_eq, ◌==◌,
}
use zeolite.Prelude.Maps.{get, set, delete, has}
use zeolite.Text.{Text, txt, starts_with, includes_unit}

abbrev pub sep : ℕ
sep = 0

abbrev pub profile_default : Text
profile_default = txt "default"

abbrev pub profile_unbound : Text
profile_unbound = sep ∷ txt "unbound"

-- The module's state. `assigned_roots` and `unbound_clients` are sets.
pub record Profiles : Type 0 where
  pub profile : Text
  pub client_roots : List (Text × Text)
  pub root_profiles : List (Text × Text)
  pub unbound_clients : List Text
  pub restore_failed : Bool
  pub global_assigned : Bool
  pub assigned_roots : List Text

abbrev pub init : Profiles
init = record {
  profile = profile_default;
  client_roots = [];
  root_profiles = [];
  unbound_clients = [];
  restore_failed = false;
  global_assigned = false;
  assigned_roots = [];
}

-- Sets of texts.
abbrev pub member : Text → List Text → Bool
member x xs = any (λ y. y == x) xs

abbrev pub add : Text → List Text → List Text
add x xs = if member x xs then xs else xs ++ x ∷ []

abbrev pub remove : Text → List Text → List Text
remove x xs = filter (λ y. not (y == x)) xs

-- An absent or empty id is no client.
unfoldable pub root_of : Profiles → Option Text → Option Text
root_of s none = none
root_of s (some []) = none
root_of s (some (c ∷ id)) = elim (get (c ∷ id) s.client_roots) [
  | some r ↦ some r
  | none ↦ if has (c ∷ id) s.root_profiles then some (c ∷ id) else none
]

pub any_session_profile_active : Profiles → Bool
any_session_profile_active s =
    not (s.profile == profile_default)
    || any (λ (r, pid). not (pid == profile_default)) s.root_profiles

abbrev pub is_unbound : Profiles → Option Text → Bool
is_unbound s none = false
is_unbound s (some id) = not (id == []) && member id s.unbound_clients

-- A root is truthy: an empty one counts as none.
pub active_profile : Profiles → Option Text → Text
unfolding root_of any_session_profile_active
active_profile s client =
    let free =
      if is_unbound s client
      then profile_unbound
      else if s.restore_failed && not s.global_assigned
      then profile_unbound
      else s.profile in
    elim (root_of s client) [
      | none ↦ free
      | some r ↦ elim r [
        | [] ↦ free
        | c ∷ k ↦ elim (get (c ∷ k) s.root_profiles) [
          | some pid ↦ pid
          | none ↦
              if s.restore_failed || any_session_profile_active s
              then profile_unbound
              else profile_default
        ]
      ]
    ]

-- `p` as a profile name, the default one if it is absent or malformed.
pub effective_profile : Option Text → Text
effective_profile none = profile_default
effective_profile (some p) =
    if not (p == []) && (leb (length p) 64 && not (includes_unit sep p)) then p else profile_default

pub mark_jar_client_unbound : Option Text → Profiles → Profiles
unfolding root_of any_session_profile_active
mark_jar_client_unbound none s = s
mark_jar_client_unbound (some []) s = s
mark_jar_client_unbound (some (c ∷ id)) s =
    if not (is_some (root_of s (some (c ∷ id)))) && any_session_profile_active s
    then record s { unbound_clients = add (c ∷ id) s.unbound_clients }
    else s

-- The jar's buckets by key; `V` is what a bucket holds.
module _ (encode : Text → Text) where
  pub namespace_for_profile : Text → Option Text → Text
  namespace_for_profile pid root = if pid == profile_default then profile_default else elim root [
    | none ↦ txt "legacy:" ++ encode pid
    | some r ↦ elim r [
      | [] ↦ txt "legacy:" ++ encode pid
      | c ∷ k ↦ txt "client:" ++ (encode (c ∷ k) ++ (b':' ∷ encode pid))
    ]
  ]

  unfoldable pub namespace_for_client : Profiles → Option Text → Text
  unfolding namespace_for_profile active_profile root_of
  namespace_for_client s client = namespace_for_profile (active_profile s client) (root_of s client)

  unfoldable pub unbound_global_namespace : Text
  unfolding namespace_for_profile
  unbound_global_namespace = namespace_for_profile profile_unbound none

-- `jarKey` and `inProfile`.
unfoldable pub jar_key : Text → Text → Text
jar_key origin_id namespace =
    if namespace == profile_default then origin_id else namespace ++ (sep ∷ origin_id)

unfoldable pub in_profile : Text → Text → Bool
in_profile key namespace =
    if namespace == profile_default
    then not (includes_unit sep key)
    else starts_with key (namespace ++ sep ∷ [])

module _ {V : Type 0} where
  -- `clearNamespace`
  pub clear_namespace : Text → List (Text × V) → List (Text × V)
  clear_namespace namespace [] = []
  clear_namespace namespace ((k, v) ∷ m) =
      let rest = clear_namespace namespace m in
      if starts_with k (namespace ++ sep ∷ []) then rest else (k, v) ∷ rest

  module _ (encode : Text → Text) where
    -- `setJarProfile` for one client, with the jars that it may clear; its reply is the profile.
    pub set_client_profile :
        Option Text → Text → Profiles → List (Text × V) → Profiles × List (Text × V) × Text
    unfolding effective_profile root_of namespace_for_profile
    set_client_profile p client s jars =
        let next = effective_profile p in
        let root = or_else (root_of s (some client)) client in
        let prev = or_else (get root s.root_profiles) profile_default in
        (
          record s {
            assigned_roots = add root s.assigned_roots;
            root_profiles = set root next s.root_profiles;
            client_roots = set client root s.client_roots;
          },
          (if not (prev == profile_default) && not (prev == next)
              then clear_namespace (namespace_for_profile encode prev (some root)) jars
              else jars),
          next,
        )

    -- The same with no client: the legacy global profile.
    pub set_global_profile :
        Option Text → Profiles → List (Text × V) → Profiles × List (Text × V) × Text
    unfolding effective_profile namespace_for_profile
    set_global_profile p s jars =
        let next = effective_profile p in
        (
          record s { global_assigned = true; profile = next },
          (if not (s.profile == profile_default) && not (s.profile == next)
              then clear_namespace (namespace_for_profile encode s.profile none) jars
              else jars),
          next,
        )

    pub set_jar_profile :
        Option Text → Option Text → Profiles → List (Text × V) → Profiles × List (Text × V) × Text
    unfolding set_client_profile set_global_profile
    set_jar_profile p none s jars = set_global_profile p s jars
    set_jar_profile p (some []) s jars = set_global_profile p s jars
    set_jar_profile p (some (c ∷ id)) s jars = set_client_profile p (c ∷ id) s jars
