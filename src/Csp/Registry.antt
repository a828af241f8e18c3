-- ===== src/Csp/Registry.antt =====
-- The plans of the clients over time: how many there are, and when one ends.
use zeolite.Prelude.{
  suc, ◌≤◌, ◌≡◌, inl, inr, refl, false, Option, none, some, List, [], ◌∷◌, ◌==◌, ==_refl, text_eq,
  length, drop, length-drop, if◌then◌else◌, All, Bool-cases, arith,
}
use zeolite.Prelude.Maps.{get, set, delete, get-set, get-delete, has}
use zeolite.Text.{Text}
use zeolite.Url.{Url}
use zeolite.Csp.{
  CspEnginePlan, CspRegistry, new_csp_registry, clients_cap, make_room, csp_set_client,
  csp_clear_client, csp_gate,
}
use zeolite.Csp.Gate.{Blocks, csp_gate-Blocks}

-- A call of the registry.
pub data Action : Type 0 where
  set_client : Text → CspEnginePlan → Action
  clear_client : Option Text → Action

unfoldable pub act : Action → CspRegistry → CspRegistry
act (set_client id plan) reg = csp_set_client reg id plan
act (clear_client id) reg = csp_clear_client reg id

unfoldable pub run : List Action → CspRegistry → CspRegistry
run [] reg = reg
run (a ∷ actions) reg = run actions (act a reg)

length-set :
    (k : Text) (plan : CspEnginePlan) (m : CspRegistry)
    → length (set k plan m) ≡ (if has k m then length m else suc (length m))
unfolding set get
length-set k plan [] = refl
length-set k plan ((j, w) ∷ m) = ground (arith, length-set k plan m)

length-delete : (k : Text) (m : CspRegistry) → length (delete k m) ≤ length m
unfolding delete
length-delete k [] = omega arith
length-delete k ((j, w) ∷ m) = ground (arith, length-delete k m)

get-drop_first : (k : Text) (m : CspRegistry) → get k m ≡ none → get k (drop 1 m) ≡ none
unfolding get
get-drop_first k [] h = refl
get-drop_first k ((j, w) ∷ m) h = ground (arith, h)

set_client-length :
    (reg : CspRegistry) (id : Text) (plan : CspEnginePlan)
    → length reg ≤ clients_cap
    → length (csp_set_client reg id plan) ≤ clients_cap
unfolding csp_set_client make_room
set_client-length reg id plan h =
    ground (arith, h, length-set id plan reg, length-set id plan (drop 1 reg), length-drop 1 reg)

act-length :
    (a : Action) (reg : CspRegistry) → length reg ≤ clients_cap → length (act a reg) ≤ clients_cap
unfolding act csp_clear_client
act-length (set_client id plan) reg h = set_client-length reg id plan h
act-length (clear_client none) reg h = h
act-length (clear_client (some id)) reg h = ground (arith, h, length-delete id reg)

run-length :
    (actions : List Action) (reg : CspRegistry)
    → length reg ≤ clients_cap
    → length (run actions reg) ≤ clients_cap
unfolding run
run-length [] reg h = h
run-length (a ∷ actions) reg h = run-length actions (act a reg) (act-length a reg h)

-- However many documents are served, no more than the cap of clients have a plan.
pub run-clients_cap : (actions : List Action) → length (run actions new_csp_registry) ≤ clients_cap
run-clients_cap actions = run-length actions [] (omega arith)

-- The action gives the client no plan.
unfoldable pub Spares : Text → Action → Type 0
Spares id (set_client other plan) = (other == id) ≡ false
Spares id (clear_client other) = Unit

act-Spares :
    (id : Text) (a : Action) (reg : CspRegistry)
    → Spares id a
    → get id reg ≡ none
    → get id (act a reg) ≡ none
unfolding act Spares csp_set_client csp_clear_client make_room
act-Spares id (set_client other plan) reg s n = ground (
  arith,
  s,
  n,
  get-set other id plan reg,
  get-set other id plan (drop 1 reg),
  get-drop_first id reg n,
)
act-Spares id (clear_client none) reg s n = n
act-Spares id (clear_client (some other)) reg s n = ground (arith, n, get-delete other id reg)

run-Spares :
    (id : Text) (actions : List Action) (reg : CspRegistry)
    → All (Spares id) actions
    → get id reg ≡ none
    → get id (run actions reg) ≡ none
unfolding run
run-Spares id [] reg v n = n
run-Spares id (a ∷ actions) reg (s, v) n =
    run-Spares id actions (act a reg) v (act-Spares id a reg s n)

get_cleared :
    (reg : CspRegistry) (id : Text)
    → (id == []) ≡ false
    → get id (csp_clear_client reg (some id)) ≡ none
unfolding csp_clear_client
get_cleared reg id f = ground (arith, f, get-delete id id reg, ==_refl id)

-- Once a navigation has cleared a client, nothing is blocked for it until it is given a plan of its own,
-- whatever plans other clients are given meanwhile.
pub run-cleared :
    (parse_url : Text → Option Url) (reg : CspRegistry) (id dest abs_url : Text)
    (actions : List Action)
    → All (Spares id) actions
    → (csp_gate parse_url
        (run actions (csp_clear_client reg (some id)))
        (some id)
        dest
        abs_url).blocked
      ≡ false
unfolding Blocks
run-cleared parse_url reg id dest abs_url actions v =
    let after = run actions (csp_clear_client reg (some id)) in
    elim (Bool-cases (csp_gate parse_url after (some id) dest abs_url).blocked) [
      | inr free ↦ free
      | inl b ↦
          let (jd, directive, plan, c, full, d, g, r) =
            (csp_gate-Blocks parse_url after (some id) dest abs_url).0 b in
          let same : jd ≡ id = ground (arith, c) in
          let full_id : (id == []) ≡ false = rw same at full in
          let held = rw same at g in
          absurd (
            ground (
              arith,
              held,
              run-Spares id actions (csp_clear_client reg (some id)) v (get_cleared reg id full_id),
            ))
    ]
