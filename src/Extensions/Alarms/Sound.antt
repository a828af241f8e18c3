-- ===== src/Extensions/Alarms/Sound.antt =====
-- Whatever is called and whenever timers run out, each alarm keeps one running timer of its own.
use zeolite.Prelude.{
  ℕ, ◌≡◌, inl, inr, refl, sym, subst, true, ◌&&◌, not, none, List, [], ◌∷◌, ltb, text_eq, nat_eq,
  is_some, Bool-cases, arith,
}
use zeolite.Prelude.Maps.{get, set}
use zeolite.Text.{Text}
use zeolite.Extensions.Alarms.{Alarm, Registry, no_alarms, reg, entry_of, release}
use zeolite.Extensions.Alarms.Store.{
  is_stored_alarm, hydrate_alarms, hydrate_ext, hydrate_store, hydrate, Event, created, expired,
  cleared, listened, dropped, restored, step, run,
}
use zeolite.Extensions.Alarms.Timers.{Distinct, IsSoundBut, at, IsSound}
use zeolite.Extensions.Alarms.Calls.{
  aside, persist_ext-IsSound, create-IsSound, expire-IsSound, clear-IsSound, drop_ext-IsSound,
  same_alarms, on_alarm-IsSound,
}
use zeolite.Extensions.Alarms.Entries.{release-IsSoundBut, arm_entry-IsSound}

hydrate_alarms-IsSound :
    (id : Text) (now : ℕ) (alarms : List Alarm) (s : Registry)
    → IsSound s
    → IsSound (hydrate_alarms id now alarms s)
unfolding hydrate_alarms release
hydrate_alarms-IsSound id now [] s v = v
hydrate_alarms-IsSound id now (a ∷ alarms) s v =
    elim (Bool-cases (is_stored_alarm a && not (is_some (entry_of s id a.name)))) [
      | inr skipped ↦ rw (skipped, hydrate_alarms) (hydrate_alarms-IsSound id now alarms s v)
      | inl armed ↦
          let free : entry_of s id a.name ≡ none = ground (arith, armed) in
          let hole =
            subst (λ o. IsSoundBut (at id a.name) (release o s)) free
              (release-IsSoundBut s id a.name v) in
          rw (armed, hydrate_alarms)
            (hydrate_alarms-IsSound id now alarms _ (arm_entry-IsSound s id now a hole))
    ]

hydrate_ext-IsSound :
    (id : Text) (now : ℕ) (alarms : List Alarm) (s : Registry)
    → IsSound s
    → IsSound (hydrate_ext id now alarms s)
unfolding hydrate_ext
hydrate_ext-IsSound id now alarms s v =
    let after = hydrate_alarms id now alarms (record s { exts = set id (reg id s) s.exts }) in
    let sound : IsSound after = hydrate_alarms-IsSound id now alarms _ (same_alarms s id _ v) in
    elim (Bool-cases (ltb s.next_timer after.next_timer)) [
      | inl some_armed ↦ rw (some_armed, hydrate_ext) (persist_ext-IsSound after id sound)
      | inr none_armed ↦ rw (none_armed, hydrate_ext) sound
    ]

hydrate_store-IsSound :
    (now : ℕ) (store : List (Text × List Alarm)) (s : Registry)
    → IsSound s
    → IsSound (hydrate_store now store s)
unfolding hydrate_store
hydrate_store-IsSound now [] s v = v
hydrate_store-IsSound now ((id, alarms) ∷ store) s v =
    hydrate_store-IsSound now store _ (hydrate_ext-IsSound id now alarms s v)

hydrate-IsSound :
    (now : ℕ) (store : List (Text × List Alarm)) (s : Registry)
    → IsSound s
    → IsSound (hydrate now store s)
unfolding hydrate
hydrate-IsSound now store s v = elim (Bool-cases s.hydrated) [
  | inl e ↦ let same : hydrate now store s ≡ s = ground (arith, e) in subst IsSound (sym same) v
  | inr e ↦ rw (e, hydrate) (hydrate_store-IsSound now store _ (aside s true s.written s.called v))
]

step-IsSound : (unit : ℕ) (e : Event) (s : Registry) → IsSound s → IsSound (step unit e s)
unfolding step
step-IsSound unit (created id name info now) s v = create-IsSound unit s id name info now v
step-IsSound unit (expired timer now) s v = expire-IsSound s timer now v
step-IsSound unit (cleared id name) s v = clear-IsSound s id name v
step-IsSound unit (listened id l) s v = on_alarm-IsSound s id l v
step-IsSound unit (dropped id) s v = drop_ext-IsSound s id v
step-IsSound unit (restored now store) s v = hydrate-IsSound now store s v

run-step : (unit : ℕ) (events : List Event) (s : Registry) → IsSound s → IsSound (run unit events s)
unfolding run
run-step unit [] s v = v
run-step unit (e ∷ events) s v = run-step unit events (step unit e s) (step-IsSound unit e s v)

-- After any calls and timers, in any order, each alarm has a timer of its own that runs for it, and each
-- timer that runs is that of an alarm: none is armed twice, lost or left behind.
pub run-IsSound : (unit : ℕ) (events : List Event) → IsSound (run unit events no_alarms)
unfolding entry_of get Distinct
run-IsSound unit events = run-step unit events no_alarms (record {
  armed = λ id name e g out. absurd (ground (arith, g));
  owned = λ t p g. absurd (ground (arith, g));
  fresh = λ t later. refl;
  distinct = λ id. tt;
})
