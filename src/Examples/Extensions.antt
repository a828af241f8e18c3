-- ===== src/Examples/Extensions.antt =====
-- Runs of app/src/extensions/permissions.ts and app/src/extensions/alarms.ts.
use zeolite.Prelude.{
  ℕ, ◌+◌, ◌*◌, ◌≡◌, ◌↔◌, refl, Bool, true, false, Option, none, some, List, [], ◌∷◌, ◌==◌, text_eq,
  arith, if◌then◌else◌,
}
use zeolite.Prelude.Maps.{get}
use zeolite.Prelude.Result.{ok, err}
use zeolite.Text.{Text, txt}
use zeolite.Examples.{simple_url}
use zeolite.Extensions.Permissions.{PermissionGate, host_permission, require_host}
use zeolite.Extensions.Permissions.Covers.{Granted, require_host_iff}
use zeolite.Extensions.Alarms.{Alarm, ExtAlarms, Registry, no_alarms, get_alarm, fire}
use zeolite.Extensions.Alarms.Store.{Event, created, expired, restored, run}
use zeolite.Extensions.Alarms.Timers.{IsSound}
use zeolite.Extensions.Alarms.Sound.{run-IsSound}
use zeolite.Extensions.Alarms.Slots.{IsFirstSlot, fire-IsFirstSlot}

abbrev gate : PermissionGate
gate = record { perms = []; hosts = txt "https://*.a.example/*" ∷ [] }

abbrev outside : Text
outside = txt "https://b.example/x"

require_host_iff_example :
    ((require_host simple_url gate outside ≡ ok tt) ↔ Granted simple_url gate.hosts outside)
    × ((require_host simple_url gate outside ≡ err (host_permission outside))
        ↔ ¬ Granted simple_url gate.hosts outside)
require_host_iff_example = require_host_iff simple_url gate outside

abbrev alarm : Alarm
alarm = record { name = txt "sync"; scheduled = 100000; period = some 1 }

abbrev owner : ExtAlarms
owner = record { alarms = []; listeners = 1 ∷ [] }

abbrev registry : Registry
registry = record no_alarms { exts = (txt "ext", owner) ∷ []; next_timer = 1 }

-- The alarm of each minute runs out at five minutes, after two more of its slots.
fire-IsFirstSlot_example :
    (slot : ℕ) × ((get_alarm (fire (txt "ext") alarm 300000 registry) (txt "ext") (txt "sync")
        ≡ some (record alarm { scheduled = slot }))
      × IsFirstSlot 300000 (1 * 60000) (100000 + 1 * 60000) slot)
unfolding get zeolite.Prelude.list_beq
fire-IsFirstSlot_example =
    fire-IsFirstSlot (txt "ext") alarm 300000 1 owner registry refl refl (omega arith)

-- The store is read, an alarm is set again, and its timer runs out.
abbrev day : List Event
day =
    restored 0 ((txt "ext", alarm ∷ []) ∷ [])
    ∷ created (txt "ext") (txt "sync") (record { at_time = none; delay = some 5; every = some 60 })
        10
    ∷ expired 1 20
    ∷ []

run-IsSound_example : IsSound (run 1000 day no_alarms)
run-IsSound_example = run-IsSound 1000 day
