-- ===== src/Extensions/Alarms/Slots.antt =====
-- When an alarm that repeats is due again: the loop of `fire` in app/src/extensions/alarms.ts.
use zeolite.Prelude.{
  ℕ, zero, suc, ◌+◌, ◌*◌, ◌≤◌, ◌<◌, ◌≡◌, inl, inr, refl, some, leb, ==_refl, text_eq, Bool-cases,
  arith,
}
use zeolite.Prelude.Maps.{get, set, get-set}
use zeolite.Text.{Text}
use zeolite.Extensions.Alarms.{
  Alarm, Entry, ExtAlarms, Registry, reg, entry_of, get_alarm, persist_ext, arm_entry, minute,
  next_slot, fire,
}

-- A slot of the period after now that has none before it: the slots are those of first.
abbrev pub IsFirstSlot : ℕ → ℕ → ℕ → ℕ → Type 0
IsFirstSlot now period first slot =
    (turns : ℕ) × ((slot ≡ first + turns * period)
      × (now < slot × ((earlier : ℕ) → earlier < turns → first + earlier * period ≤ now)))

earlier-turns :
    (now period next turns : ℕ)
    → next ≤ now
    → ((earlier : ℕ) → earlier < turns → (next + period) + earlier * period ≤ now)
    → (earlier : ℕ) → earlier < suc turns
    → next + earlier * period ≤ now
earlier-turns now period next turns h least zero below = omega (arith, h)
earlier-turns now period next turns h least (suc j) below =
    let one : (next + period) + j * period ≤ now = least j (omega (arith, below)) in
    omega (arith, one)

next_turn :
    (now period next slot : ℕ)
    → next ≤ now
    → IsFirstSlot now period (next + period) slot
    → IsFirstSlot now period next slot
next_turn now period next slot h (turns, (e, (later, least))) =
    (suc turns, (omega (arith, e), (later, earlier-turns now period next turns h least)))

next_slot-IsFirstSlot :
    (fuel now period next : ℕ)
    → 1 ≤ period
    → now < next + fuel
    → IsFirstSlot now period next (next_slot fuel now period next)
unfolding next_slot
next_slot-IsFirstSlot zero now period next p h =
    (0, (omega arith, (omega (arith, h), λ j below. omega (arith, below))))
next_slot-IsFirstSlot (suc fuel) now period next p h = elim (Bool-cases (leb next now)) [
  | inl e ↦
      let later = next_slot-IsFirstSlot fuel now period (next + period) p (omega (arith, p, h)) in
      rw (e) (next_turn now period next _ (ground (arith, e)) later)
  | inr e ↦ rw (e) (0, (omega arith, (ground (arith, e), λ j below. omega (arith, below))))
]

get_alarm-found :
    (s : Registry) (id name : Text) (r : ExtAlarms) (entry : Entry)
    → get id s.exts ≡ some r
    → get name r.alarms ≡ some entry
    → get_alarm s id name ≡ some entry.alarm
unfolding get_alarm entry_of
get_alarm-found s id name r entry known found = ground (arith, known, found)

get_alarm-arm_entry :
    (id : Text) (now : ℕ) (alarm : Alarm) (s : Registry)
    → get_alarm (arm_entry id now alarm s) id alarm.name ≡ some alarm
unfolding arm_entry
get_alarm-arm_entry id now alarm s =
    let r = reg id s in
    let entry : Entry = record { timer = s.next_timer; alarm = alarm } in
    let alarms = set alarm.name entry r.alarms in
    let known : get id (set id (record r { alarms = alarms }) s.exts)
        ≡ some (record r { alarms = alarms }) =
      ground (arith, get-set id id (record r { alarms = alarms }) s.exts, ==_refl id) in
    let found : get alarm.name alarms ≡ some entry =
      ground (arith, get-set alarm.name alarm.name entry r.alarms, ==_refl alarm.name) in
    get_alarm-found (arm_entry id now alarm s) id alarm.name (record r { alarms = alarms }) entry
      known found

get_alarm-persist_ext :
    (id name key : Text) (s : Registry)
    → get_alarm (persist_ext key s) id name ≡ get_alarm s id name
unfolding get_alarm entry_of persist_ext
get_alarm-persist_ext id name key s = elim (Bool-cases s.hydrated) [
  | inl e ↦ rw (e) refl
  | inr e ↦ rw (e) refl
]

-- An alarm that fires with a period of more than nothing is set again to the first time after now that
-- is a whole number of periods, one at least, after the time it was set for; in exact arithmetic, with
-- the period in any fraction of a minute.
pub fire-IsFirstSlot :
    (id : Text) (alarm : Alarm) (now period : ℕ) (r : ExtAlarms) (s : Registry)
    → get id s.exts ≡ some r
    → alarm.period ≡ some period
    → 1 ≤ period
    → (slot : ℕ) × ((get_alarm (fire id alarm now s) id alarm.name
          ≡ some (record alarm { scheduled = slot }))
        × IsFirstSlot now (period * minute) (alarm.scheduled + period * minute) slot)
unfolding get_alarm entry_of fire
fire-IsFirstSlot id alarm now period r s known repeats p =
    let every = period * minute in
    let slot = next_slot (suc now) now every (alarm.scheduled + every) in
    let armed = arm_entry id now (record alarm { scheduled = slot }) s in
    (
      slot,
      (
        ground (
          arith,
          known,
          repeats,
          get_alarm-persist_ext id alarm.name id armed,
          get_alarm-arm_entry id now (record alarm { scheduled = slot }) s,
        ),
        next_slot-IsFirstSlot (suc now) now every (alarm.scheduled + every) (omega (arith, p))
            (omega (arith, p)),
      ),
    )
