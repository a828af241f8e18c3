-- ===== src/Transport/Streams.antt =====
-- app/src/streams-alive.ts: the pumping rewrite streams, counted in all and by host, and the
-- heartbeat that keeps the worker alive while one is pumping.
pub mod Heartbeat
use zeolite.Prelude.{
  ℕ, suc, ◌+◌, ◌-◌, Bool, true, false, not, ◌&&◌, Option, none, some, List, [], ◌∷◌, ◌++◌,
  if◌then◌else◌, eqb, ltb, leb, is_some, or_else, text_eq,
}
use zeolite.Prelude.Maps.{get, set, delete}
use zeolite.Text.{Text}
use zeolite.Url.{Url}

-- `heartbeat` is the live interval with its channel, named by a number; `made` counts the channels
-- made and `closed` lists those whose ports were closed.
pub record Streams : Type 0 where
  pub active : ℕ
  pub settled : ℕ
  pub by_host : List (Text × ℕ)
  pub heartbeat : Option ℕ
  pub made : ℕ
  pub closed : List ℕ

abbrev pub init : Streams
init = record { active = 0; settled = 0; by_host = []; heartbeat = none; made = 0; closed = [] }

unfoldable pub start_heartbeat : Streams → Streams
start_heartbeat s =
    if is_some s.heartbeat then s else record s { heartbeat = some s.made; made = s.made + 1 }

unfoldable pub count_up : Text → List (Text × ℕ) → List (Text × ℕ)
count_up [] m = m
count_up (c ∷ h) m = set (c ∷ h) (or_else (get (c ∷ h) m) 0 + 1) m

unfoldable pub count_down : Text → List (Text × ℕ) → List (Text × ℕ)
count_down [] m = m
count_down (c ∷ h) m =
    let count = or_else (get (c ∷ h) m) 0 in
    if leb count 1 then delete (c ∷ h) m else set (c ∷ h) (count - 1) m

unfoldable pub stop_heartbeat : Streams → Streams
stop_heartbeat s = elim s.heartbeat [
  | none ↦ s
  | some c ↦ record s { heartbeat = none; closed = s.closed ++ c ∷ [] }
]

module _ (parse_url : Text → Option Url) where
  pub stream_host : Option Text → Text
  stream_host none = []
  stream_host (some u) = elim (parse_url u) [ none ↦ [] | some p ↦ p.host ]

  pub stream_alive : Option Text → Streams → Streams
  unfolding stream_host start_heartbeat count_up
  stream_alive url s =
      start_heartbeat
        (record s { active = s.active + 1; by_host = count_up (stream_host url) s.by_host })

  pub stream_done : Option Text → Streams → Streams
  unfolding stream_host stop_heartbeat count_down
  stream_done url s =
      let s' = record s {
        active = s.active - 1;
        settled = s.settled + 1;
        by_host = count_down (stream_host url) s.by_host;
      } in
      if eqb s'.active 0 then stop_heartbeat s' else s'

pub active_streams : Option Text → Streams → ℕ
active_streams none s = s.active
active_streams (some []) s = s.active
active_streams (some (c ∷ h)) s = or_else (get (c ∷ h) s.by_host) 0

pub first_stream_settled : Streams → Bool
first_stream_settled s = ltb 0 s.settled

pub heartbeat_armed : Streams → Bool
heartbeat_armed s = is_some s.heartbeat
