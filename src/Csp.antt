-- ===== src/Csp.antt =====
-- The enforcement of content security policies in app/src/csp-enforce.ts: what a source list admits, the
-- plans of the clients, and the gate. The children read a policy and prove what the gate does. A policy
-- is a header's value, so its units are below 256.
pub mod Policy
pub mod Gate
pub mod Registry
pub mod Translation
use zeolite.Prelude.{
  ℕ, Bool, true, false, ◌&&◌, ◌||◌, not, Option, none, some, List, [], ◌∷◌, ◌++◌, leb, ◌==◌,
  text_eq, is_some, length, drop, any, if◌then◌else◌,
}
use zeolite.Prelude.Maps.{get, set, delete, has}
use zeolite.Text.{Text, txt, starts_with, ends_with, to_lower}
use zeolite.Url.{Url}

abbrev pub clients_cap : ℕ
clients_cap = 256

pub record HostSource : Type 0 where
  pub scheme : Option Text
  pub host : Text
  pub wildcard : Bool
  pub port : Option Text
  pub path : Option Text

pub data CspSource : Type 0 where
  own every : CspSource
  of_scheme : Text → CspSource
  of_host : HostSource → CspSource

pub record CspEnginePlan : Type 0 where
  pub self_origin : Text
  pub page_scheme : Text
  pub enforced : List Text
  pub unsupported : List Text
  pub sources : List (Text × List CspSource)
  pub default_src : Option (List CspSource)

abbrev pub empty_csp_plan : Text → Text → CspEnginePlan
empty_csp_plan self_origin page_scheme = record {
  self_origin = self_origin;
  page_scheme = page_scheme;
  enforced = [];
  unsupported = [];
  sources = [];
  default_src = none;
}

-- `DEST_DIRECTIVE`, on the destinations of the fetch standard.
abbrev pub dest_directive : List (Text × Text)
dest_directive =
    (txt "script", txt "script-src")
    ∷ (txt "style", txt "style-src")
    ∷ (txt "image", txt "img-src")
    ∷ (txt "font", txt "font-src")
    ∷ (txt "media", txt "media-src")
    ∷ (txt "audio", txt "media-src")
    ∷ (txt "video", txt "media-src")
    ∷ (txt "track", txt "media-src")
    ∷ (txt "empty", txt "connect-src")
    ∷ []

abbrev pub is_web : Url → Bool
is_web u = u.protocol == txt "http:" || u.protocol == txt "https:"

abbrev pub scheme_default_ports : List (Text × Text)
scheme_default_ports = (txt "http", txt "80") ∷ (txt "https", txt "443") ∷ []

-- `s.replace(/:$/, "")`.
unfoldable pub without_colon : Text → Text
without_colon [] = []
without_colon (c ∷ []) = if c ∷ [] == txt ":" then [] else c ∷ []
without_colon (c ∷ d ∷ s) = c ∷ without_colon (d ∷ s)

-- The scheme that a host source stands for: its own, or the page's.
unfoldable pub source_scheme : HostSource → CspEnginePlan → Text
source_scheme h plan = elim h.scheme [ some s ↦ s | none ↦ without_colon plan.page_scheme ]

unfoldable pub scheme_ok : HostSource → Url → CspEnginePlan → Bool
scheme_ok h u plan = elim h.scheme [
  | some s ↦ u.protocol == (s ++ txt ":")
  | none ↦ u.protocol == plan.page_scheme
]

unfoldable pub host_ok : HostSource → Url → Bool
host_ok h u =
    if h.wildcard
    then ends_with (to_lower u.hostname) (txt "." ++ h.host)
    else to_lower u.hostname == h.host

-- The port that a URL shows for the port of a source: a default port is not shown.
unfoldable pub shown_port : HostSource → CspEnginePlan → Text → Text
shown_port h plan port = elim (get (source_scheme h plan) scheme_default_ports) [
  | none ↦ port
  | some default ↦ if port == default then [] else port
]

unfoldable pub port_ok : HostSource → Url → CspEnginePlan → Bool
port_ok h u plan = elim h.port [
  | none ↦ u.port == []
  | some port ↦ if port == txt "*" then true else u.port == shown_port h plan port
]

unfoldable pub path_ok : HostSource → Url → Bool
path_ok h u = elim h.path [
  | none ↦ true
  | some path ↦ if ends_with path (txt "/") then starts_with u.pathname path else u.pathname == path
]

unfoldable pub source_matches : CspSource → Url → CspEnginePlan → Bool
source_matches own u plan = u.origin == plan.self_origin
source_matches every u plan = is_web u
source_matches (of_scheme s) u plan = u.protocol == (s ++ txt ":")
source_matches (of_host h) u plan =
    scheme_ok h u plan && (host_ok h u && (port_ok h u plan && path_ok h u))

-- `CspRegistry`: the plan of each client.
abbrev pub CspRegistry : Type 0
CspRegistry = List (Text × CspEnginePlan)

abbrev pub new_csp_registry : CspRegistry
new_csp_registry = []

-- The registry without its oldest client, if a new one would find it full.
unfoldable pub make_room : Text → CspRegistry → CspRegistry
make_room client_id reg =
    if leb clients_cap (length reg) && not (has client_id reg) then drop 1 reg else reg

unfoldable pub csp_set_client : CspRegistry → Text → CspEnginePlan → CspRegistry
csp_set_client reg client_id plan =
    if client_id == [] then reg else set client_id plan (make_room client_id reg)

unfoldable pub csp_clear_client : CspRegistry → Option Text → CspRegistry
csp_clear_client reg none = reg
csp_clear_client reg (some client_id) = if client_id == [] then reg else delete client_id reg

pub record CspGateDecision : Type 0 where
  pub blocked : Bool
  pub directive : Option Text

abbrev pub allowed : CspGateDecision
allowed = record { blocked = false; directive = none }

abbrev pub default_name : Text
default_name = txt "default-src"

-- The decision by a list under a name.
unfoldable pub decide : List CspSource → Text → Url → CspEnginePlan → CspGateDecision
decide sources name u plan = record {
  blocked = not (any (λ s. source_matches s u plan) sources);
  directive = some name;
}

unfoldable pub decide_by : Text → Url → CspEnginePlan → CspGateDecision
decide_by directive u plan = elim (get directive plan.sources) [
  | some sources ↦ decide sources directive u plan
  | none ↦ elim plan.default_src [
    | some sources ↦ decide sources default_name u plan
    | none ↦ allowed
  ]
]

abbrev pub no_lists : CspEnginePlan → Bool
no_lists plan = leb (length plan.sources) 0 && not (is_some plan.default_src)

module _ (parse_url : Text → Option Url) where
  unfoldable pub gate_url : Text → CspEnginePlan → Text → CspGateDecision
  gate_url directive plan abs_url = if no_lists plan then allowed else elim (parse_url abs_url) [
    | none ↦ allowed
    | some u ↦ if is_web u then decide_by directive u plan else allowed
  ]

  unfoldable pub gate_client : CspRegistry → Text → Text → Text → CspGateDecision
  gate_client reg client_id directive abs_url =
      if client_id == []
      then allowed
      else elim (get client_id reg) [ none ↦ allowed | some plan ↦ gate_url directive plan abs_url ]

  unfoldable pub csp_gate : CspRegistry → Option Text → Text → Text → CspGateDecision
  csp_gate reg client_id dest abs_url = elim (get dest dest_directive) [
    | none ↦ allowed
    | some directive ↦ elim client_id [
      | none ↦ allowed
      | some id ↦ gate_client reg id directive abs_url
    ]
  ]

-- `a.join(sep)`.
unfoldable pub join_by : Text → List Text → Text
join_by sep [] = []
join_by sep (w ∷ []) = w
join_by sep (w ∷ v ∷ ws) = w ++ (sep ++ join_by sep (v ∷ ws))

-- One segment of the marker, if it has names.
unfoldable pub marker_segment : Text → List Text → List Text
marker_segment label [] = []
marker_segment label (n ∷ ns) = (label ++ join_by (txt ",") (n ∷ ns)) ∷ []

unfoldable pub engine_csp_marker : CspEnginePlan → Option Text
engine_csp_marker plan =
    let names = plan.enforced ++ (if is_some plan.default_src then default_name ∷ [] else []) in
    let segs =
      marker_segment (txt "engine ") names
      ++ marker_segment (txt "engine-unsupported ") plan.unsupported in
    if leb (length segs) 0 then none else some (join_by (txt "; ") segs)
