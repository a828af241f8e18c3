-- ===== src/Extensions/Alarms.antt =====
-- The alarms of app/src/extensions/alarms.ts. The numbers are exact: delays and periods are multiples of
-- 1/unit of a minute, for any unit, and times those of 1/unit of a millisecond, so that minutes times 60000
-- are milliseconds; the rounding of the doubles is left out. The clock is an argument, and the runtime's timers are part of the state: one that runs out is an event. The hook that
-- wakes an idle background and the unsubscription of a listener are left out: listeners are called at once.
-- Timers and Freed say what a change does to the timers, Entries, Calls and Sound that each alarm has
-- one, Slots when an alarm is due again; Store holds the reading of the store and the sequences of calls.
pub mod Timers
pub mod Freed
pub mod Calls
pub mod Entries
pub mod Store
pub mod Sound
pub mod Slots
use zeolite.Prelude.{
  ℕ, zero, suc, ◌+◌, ◌-◌, ◌*◌, Bool, true, false, ◌&&◌, ◌||◌, not, Option, none, some, List, [],
  ◌∷◌, ◌++◌, map, leb, ltb, ◌==◌, text_eq, nat_eq, is_some, or_else, length, if◌then◌else◌,
}
use zeolite.Prelude.Maps.{get, set, delete, has}
use zeolite.Text.{Text}

pub record AlarmCreateInfo : Type 0 where
  pub at_time : Option ℕ
  pub delay : Option ℕ
  pub every : Option ℕ

pub record Alarm : Type 0 where
  pub name : Text
  pub scheduled : ℕ
  pub period : Option ℕ

pub record Entry : Type 0 where
  pub timer : ℕ
  pub alarm : Alarm

pub record ExtAlarms : Type 0 where
  pub alarms : List (Text × Entry)
  pub listeners : List ℕ

-- A running timer: the extension and the alarm that it fires, and when.
pub record Pending : Type 0 where
  pub ext : Text
  pub alarm : Alarm
  pub delay : ℕ

-- The registry, with the timers that run, the lists that were written to the store, and the calls of
-- listeners.
pub record Registry : Type 0 where
  pub exts : List (Text × ExtAlarms)
  pub hydrated : Bool
  pub timers : List (ℕ × Pending)
  pub next_timer : ℕ
  pub written : List (Text × List Alarm)
  pub called : List (ℕ × Alarm)

abbrev pub no_alarms : Registry
no_alarms = record {
  exts = [];
  hydrated = false;
  timers = [];
  next_timer = 0;
  written = [];
  called = [];
}

abbrev pub nothing : ExtAlarms
nothing = record { alarms = []; listeners = [] }

-- `this.reg(id)`.
abbrev pub reg : Text → Registry → ExtAlarms
reg id s = or_else (get id s.exts) nothing

unfoldable pub entry_of : Registry → Text → Text → Option Entry
entry_of s id name = get name (reg id s).alarms

unfoldable pub alarms_of : List (Text × Entry) → List Alarm
alarms_of [] = []
alarms_of ((name, e) ∷ es) = e.alarm ∷ alarms_of es

unfoldable pub get_alarm : Registry → Text → Text → Option Alarm
get_alarm s id name = elim (entry_of s id name) [ none ↦ none | some e ↦ some e.alarm ]

unfoldable pub get_all : Registry → Text → List Alarm
get_all s id = alarms_of (reg id s).alarms

unfoldable pub persist_ext : Text → Registry → Registry
persist_ext id s =
    if s.hydrated then record s { written = s.written ++ (id, get_all s id) ∷ [] } else s

-- `clearTimeout` of the entry's timer, if there is an entry.
unfoldable pub release : Option Entry → Registry → Registry
release none s = s
release (some e) s = record s { timers = delete e.timer s.timers }

-- `r.alarms.set(alarm.name, {timer: this.arm(id, alarm, period), alarm})`.
unfoldable pub arm_entry : Text → ℕ → Alarm → Registry → Registry
arm_entry id now alarm s =
    let r = reg id s in
    record s {
      exts =
          set id
            (record r {
              alarms = set alarm.name (record { timer = s.next_timer; alarm = alarm }) r.alarms;
            })
            s.exts;
      timers =
          set s.next_timer (record { ext = id; alarm = alarm; delay = alarm.scheduled - now })
            s.timers;
      next_timer = suc s.next_timer;
    }

unfoldable pub remove_entry : Text → Text → Registry → Registry
remove_entry id name s =
    let r = reg id s in
    record s { exts = set id (record r { alarms = delete name r.alarms }) s.exts }

abbrev pub minute : ℕ
minute = 60000

-- A period that is more than nothing.
unfoldable pub usable : Option ℕ → Option ℕ
usable none = none
usable (some p) = if leb p 0 then none else some p

-- `unit` is how many parts a millisecond, or a minute, has.
unfoldable pub first_time : ℕ → ℕ → AlarmCreateInfo → ℕ
first_time unit now info = elim info.at_time [
  | some at ↦ at
  | none ↦ elim info.delay [
    | some delay ↦ now + delay * minute
    | none ↦ elim (usable info.every) [ some p ↦ now + p * minute | none ↦ now + unit * minute ]
  ]
]

unfoldable pub create : ℕ → Text → Text → AlarmCreateInfo → ℕ → Registry → Registry
create unit id name info now s =
    let alarm : Alarm = record {
      name = name;
      scheduled = first_time unit now info;
      period = usable info.every;
    } in
    persist_ext id (arm_entry id now alarm (release (entry_of s id name) s))

-- `while (next <= now) next += period`, for so many turns; the period is in the parts of a millisecond.
unfoldable pub next_slot : ℕ → ℕ → ℕ → ℕ → ℕ
next_slot zero now period next = next
next_slot (suc fuel) now period next =
    let later = next_slot fuel now period (next + period) in if leb next now then later else next

-- The alarm at its first slot after now.
abbrev pub rescheduled : ℕ → ℕ → Alarm → Alarm
rescheduled now period alarm = record alarm {
  scheduled = next_slot (suc now) now (period * minute) (alarm.scheduled + period * minute);
}

unfoldable pub calls : List ℕ → Alarm → List (ℕ × Alarm)
calls [] alarm = []
calls (l ∷ ls) alarm = (l, alarm) ∷ calls ls alarm

unfoldable pub fire : Text → Alarm → ℕ → Registry → Registry
fire id alarm now s = elim (get id s.exts) [
  | none ↦ s
  | some r ↦
      let kept : Registry = elim alarm.period [
        | some p ↦ persist_ext id (arm_entry id now (rescheduled now p alarm) s)
        | none ↦ persist_ext id (remove_entry id alarm.name s)
      ] in
      record kept { called = kept.called ++ calls r.listeners alarm }
]

-- A timer runs out.
unfoldable pub expire : ℕ → ℕ → Registry → Registry
expire timer now s = elim (get timer s.timers) [
  | none ↦ s
  | some p ↦ fire p.ext p.alarm now (record s { timers = delete timer s.timers })
]

unfoldable pub clear_name : Text → Text → Registry → Bool × Registry
clear_name id name s = elim (entry_of s id name) [
  | none ↦ (false, s)
  | some e ↦ (true, persist_ext id (remove_entry id name (release (some e) s)))
]

unfoldable pub release_all : List (Text × Entry) → Registry → Registry
release_all [] s = s
release_all ((name, e) ∷ es) s = release_all es (release (some e) s)

unfoldable pub clear_all : Text → Registry → Bool × Registry
clear_all id s = elim (get id s.exts) [
  | none ↦ (false, s)
  | some r ↦
      if leb (length r.alarms) 0
      then (false, s)
      else let freed = release_all r.alarms s in
        (true, persist_ext id (record freed { exts = set id (record r { alarms = [] }) s.exts }))
]

unfoldable pub clear : Text → Option Text → Registry → Bool × Registry
clear id none s = clear_all id s
clear id (some name) s = clear_name id name s

unfoldable pub add_listener : ℕ → List ℕ → List ℕ
add_listener l [] = l ∷ []
add_listener l (m ∷ ls) = let rest = add_listener l ls in if m == l then m ∷ ls else m ∷ rest

unfoldable pub on_alarm : Text → ℕ → Registry → Registry
on_alarm id l s =
    let r = reg id s in
    record s { exts = set id (record r { listeners = add_listener l r.listeners }) s.exts }

unfoldable pub drop_ext : Text → Registry → Registry
drop_ext id s = elim (get id s.exts) [
  | none ↦ s
  | some r ↦
      let freed = release_all r.alarms s in
      persist_ext id (record freed { exts = delete id s.exts })
]
