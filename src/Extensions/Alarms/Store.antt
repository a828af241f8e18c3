-- ===== src/Extensions/Alarms/Store.antt =====
-- The store of the alarms, read in one step, and the sequences of calls, of app/src/extensions/alarms.ts.
use zeolite.Prelude.{
  ℕ, Bool, true, ◌&&◌, not, Option, none, some, List, [], ◌∷◌, leb, ltb, text_eq, nat_eq, is_some,
  length, if◌then◌else◌,
}
use zeolite.Prelude.Maps.{set}
use zeolite.Text.{Text}
use zeolite.Extensions.Alarms.{
  Alarm, AlarmCreateInfo, Registry, reg, entry_of, persist_ext, arm_entry, create, expire, clear,
  on_alarm, drop_ext,
}

-- Whether a stored alarm is well formed: its name, and its period if it has one.
unfoldable pub is_stored_alarm : Alarm → Bool
is_stored_alarm a =
    leb 1 (length a.name)
    && (leb (length a.name) 256 && elim a.period [ none ↦ true | some p ↦ not (leb p 0) ])

unfoldable pub hydrate_alarms : Text → ℕ → List Alarm → Registry → Registry
hydrate_alarms id now [] s = s
hydrate_alarms id now (a ∷ alarms) s =
    hydrate_alarms id now alarms (
      if is_stored_alarm a && not (is_some (entry_of s id a.name)) then arm_entry id now a s else s)

-- How many of the stored alarms are armed is told by the timers.
unfoldable pub hydrate_ext : Text → ℕ → List Alarm → Registry → Registry
hydrate_ext id now alarms s =
    let r = reg id s in
    let after = hydrate_alarms id now alarms (record s { exts = set id r s.exts }) in
    if ltb s.next_timer after.next_timer then persist_ext id after else after

-- The store's keys with the lists that are lists.
unfoldable pub hydrate_store : ℕ → List (Text × List Alarm) → Registry → Registry
hydrate_store now [] s = s
hydrate_store now ((id, alarms) ∷ store) s = hydrate_store now store (hydrate_ext id now alarms s)

unfoldable pub hydrate : ℕ → List (Text × List Alarm) → Registry → Registry
hydrate now store s =
    if s.hydrated then s else hydrate_store now store (record s { hydrated = true })

-- A call of the registry, or a timer that runs out.
pub data Event : Type 0 where
  created : Text → Text → AlarmCreateInfo → ℕ → Event
  expired : ℕ → ℕ → Event
  cleared : Text → Option Text → Event
  listened : Text → ℕ → Event
  dropped : Text → Event
  restored : ℕ → List (Text × List Alarm) → Event

unfoldable pub step : ℕ → Event → Registry → Registry
step unit (created id name info now) s = create unit id name info now s
step unit (expired timer now) s = expire timer now s
step unit (cleared id name) s = (clear id name s).1
step unit (listened id l) s = on_alarm id l s
step unit (dropped id) s = drop_ext id s
step unit (restored now store) s = hydrate now store s

unfoldable pub run : ℕ → List Event → Registry → Registry
run unit [] s = s
run unit (e ∷ es) s = run unit es (step unit e s)
