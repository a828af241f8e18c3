-- ===== src/Extensions/Alarms/Calls.antt =====
-- The calls of the registry and the timers that run out keep it sound.
use zeolite.Prelude.{
  ℕ, ◌≡◌, inl, inr, refl, sym, subst, ◌∙◌, Bool, Option, none, some, List, [], leb, ◌==◌, text_eq,
  nat_eq, length, if◌then◌else◌, Option-cases, Bool-cases, arith,
}
use zeolite.Prelude.Maps.{get, set, delete, get-delete}
use zeolite.Text.{Text}
use zeolite.Extensions.Alarms.{
  Alarm, AlarmCreateInfo, ExtAlarms, Pending, Registry, reg, entry_of, persist_ext, release,
  release_all, create, rescheduled, fire, expire, clear_name, clear_all, clear, on_alarm, drop_ext,
}
use zeolite.Extensions.Alarms.Timers.{
  Distinct, IsSoundBut, at, IsSound, entry_of-set, entry_of_same, set_ext-Distinct,
}
use zeolite.Extensions.Alarms.Freed.{freed-IsSound}
use zeolite.Extensions.Alarms.Entries.{
  without_timer, release-IsSoundBut, arm_entry-IsSound, remove_entry-IsSound,
}

-- The fields beside the alarms and their timers play no part.
pub aside :
    (s : Registry) (hydrated : Bool) (written : List (Text × List Alarm))
    (called : List (ℕ × Alarm))
    → IsSound s
    → IsSound (record s { hydrated = hydrated; written = written; called = called })
unfolding entry_of
aside s hydrated written called v = record {
  armed = λ id name e g out.
      let theirs = v.armed id name e g out in
      record {
        pending = theirs.pending;
        running = theirs.running;
        of_ext = theirs.of_ext;
        of_alarm = theirs.of_alarm;
        named = theirs.named;
      };
  owned = v.owned;
  fresh = v.fresh;
  distinct = v.distinct;
}

pub persist_ext-IsSound : (s : Registry) (id : Text) → IsSound s → IsSound (persist_ext id s)
unfolding persist_ext
persist_ext-IsSound s id v = elim (Bool-cases s.hydrated) [
  | inl e ↦ rw (e) (aside s _ _ _ v)
  | inr e ↦ let same : persist_ext id s ≡ s = ground (arith, e) in subst IsSound (sym same) v
]

pub create-IsSound :
    (unit : ℕ) (s : Registry) (id name : Text) (info : AlarmCreateInfo) (now : ℕ)
    → IsSound s
    → IsSound (create unit id name info now s)
unfolding create
create-IsSound unit s id name info now v =
    persist_ext-IsSound _ id (arm_entry-IsSound _ id now _ (release-IsSoundBut s id name v))

-- A timer that has run out leaves a hole for its own alarm, which has an entry.
run_out :
    (s : Registry) (t : ℕ) (p : Pending)
    → IsSound s
    → get t s.timers ≡ some p
    → IsSoundBut (at p.ext p.alarm.name) (record s { timers = delete t s.timers })
      × ¬ (get p.ext s.exts ≡ none)
unfolding entry_of get
run_out s t p v h =
    let (out, e, found, timer) = v.owned t p h in
    (
      subst (λ i. IsSoundBut (at p.ext p.alarm.name) (record s { timers = delete i s.timers }))
          timer (without_timer s p.ext p.alarm.name e v found),
      λ n.
          let gone : entry_of s p.ext p.alarm.name ≡ none = rw (n, entry_of) refl in
          ground (arith, found, gone),
    )

fire-IsSound :
    (s : Registry) (id : Text) (alarm : Alarm) (now : ℕ)
    → IsSoundBut (at id alarm.name) s
    → ¬ (get id s.exts ≡ none)
    → IsSound (fire id alarm now s)
unfolding fire
fire-IsSound s id alarm now v known = elim (Option-cases (get id s.exts)) [
  | inl n ↦ absurd (known n)
  | inr (r, e) ↦ elim (Option-cases alarm.period) [
    | inl n ↦
        rw (e, n, fire)
          (aside _ _ _ _ (persist_ext-IsSound _ id (remove_entry-IsSound s id alarm.name v)))
    | inr (p, n) ↦
        rw (e, n, fire)
          (aside _ _ _ _
            (persist_ext-IsSound _ id (arm_entry-IsSound s id now (rescheduled now p alarm) v)))
  ]
]

pub expire-IsSound : (s : Registry) (t now : ℕ) → IsSound s → IsSound (expire t now s)
unfolding expire
expire-IsSound s t now v = elim (Option-cases (get t s.timers)) [
  | inl n ↦ rw (n, expire) v
  | inr (p, h) ↦
      let (hole, known) = run_out s t p v h in
      rw (h, expire) (fire-IsSound _ p.ext p.alarm now hole known)
]

clear_name-IsSound : (s : Registry) (id name : Text) → IsSound s → IsSound (clear_name id name s).1
unfolding clear_name
clear_name-IsSound s id name v = elim (Option-cases (entry_of s id name)) [
  | inl n ↦ rw (n, clear_name) v
  | inr (e, h) ↦
      rw (h, clear_name)
        (persist_ext-IsSound _ id (
          remove_entry-IsSound _ id name (
            subst (λ o. IsSoundBut (at id name) (release o s)) h (release-IsSoundBut s id name v))))
]

clear_all-IsSound : (s : Registry) (id : Text) → IsSound s → IsSound (clear_all id s).1
unfolding clear_all Distinct get
clear_all-IsSound s id v = elim (Option-cases (get id s.exts)) [
  | inl n ↦ rw (n, clear_all) v
  | inr (r, h) ↦ elim (Bool-cases (leb (length r.alarms) 0)) [
    | inl empty ↦ rw (h, empty, clear_all) v
    | inr full ↦
        let bare : ExtAlarms = record r { alarms = [] } in
        let after = record (release_all r.alarms s) { exts = set id bare s.exts } in
        rw (h, full, clear_all)
          (persist_ext-IsSound after id (
            freed-IsSound s after id r h v refl refl (λ j n. entry_of-set id j n bare s after refl)
              (set_ext-Distinct id bare s after refl tt v.distinct)))
  ]
]

pub clear-IsSound :
    (s : Registry) (id : Text) (name : Option Text) → IsSound s → IsSound (clear id name s).1
unfolding clear
clear-IsSound s id none v = clear_all-IsSound s id v
clear-IsSound s id (some name) v = clear_name-IsSound s id name v

entry_of-delete :
    (id j n : Text) (s t : Registry)
    → t.exts ≡ delete id s.exts
    → entry_of t j n ≡ (if id == j then none else entry_of s j n)
unfolding entry_of get
entry_of-delete id j n s t h =
    let after : get j t.exts ≡ (if id == j then none else get j s.exts) =
      rw (h) (get-delete id j s.exts) in
    elim (Bool-cases (id == j)) [
      | inl same ↦
          let gone : get j t.exts ≡ none = ground (arith, after, same) in
          rw (gone, same, entry_of) refl
      | inr other ↦
          let kept : get j t.exts ≡ get j s.exts = ground (arith, after, other) in
          rw (kept, other, entry_of) refl
    ]

delete_ext-Distinct :
    (id : Text) (s t : Registry)
    → t.exts ≡ delete id s.exts
    → ((j : Text) → Distinct (reg j s).alarms)
    → (j : Text) → Distinct (reg j t).alarms
unfolding Distinct
delete_ext-Distinct id s t h v j =
    let after : get j t.exts ≡ (if id == j then none else get j s.exts) =
      rw (h) (get-delete id j s.exts) in
    elim (Bool-cases (id == j)) [
      | inl same ↦ let gone : get j t.exts ≡ none = ground (arith, after, same) in rw gone tt
      | inr other ↦
          let kept : get j t.exts ≡ get j s.exts = ground (arith, after, other) in rw kept (v j)
    ]

pub drop_ext-IsSound : (s : Registry) (id : Text) → IsSound s → IsSound (drop_ext id s)
unfolding drop_ext
drop_ext-IsSound s id v = elim (Option-cases (get id s.exts)) [
  | inl n ↦ rw (n, drop_ext) v
  | inr (r, h) ↦
      let after = record (release_all r.alarms s) { exts = delete id s.exts } in
      rw (h, drop_ext)
        (persist_ext-IsSound after id (
          freed-IsSound s after id r h v refl refl (λ j n. entry_of-delete id j n s after refl)
            (delete_ext-Distinct id s after refl v.distinct)))
]

-- An extension that is registered, or given other listeners, with the alarms it has.
pub same_alarms :
    (s : Registry) (id : Text) (listeners : List ℕ)
    → IsSound s
    → IsSound (record s { exts = set id (record (reg id s) { listeners = listeners }) s.exts })
same_alarms s id listeners v =
    let r : ExtAlarms = record (reg id s) { listeners = listeners } in
    let after = record s { exts = set id r s.exts } in
    let entries : (j n : Text) → entry_of after j n ≡ entry_of s j n =
      λ j n. ground (arith, entry_of-set id j n r s after refl, entry_of_same s id j n) in
    record {
      armed = λ j n f g out.
          let theirs = v.armed j n f (sym (entries j n) ∙ g) out in
          record {
            pending = theirs.pending;
            running = theirs.running;
            of_ext = theirs.of_ext;
            of_alarm = theirs.of_alarm;
            named = theirs.named;
          };
      owned = λ t p g.
          let (out, f, found, timer) = v.owned t p g in
          (out, f, entries p.ext p.alarm.name ∙ found, timer);
      fresh = v.fresh;
      distinct = set_ext-Distinct id r s after refl (v.distinct id) v.distinct;
    }

pub on_alarm-IsSound : (s : Registry) (id : Text) (l : ℕ) → IsSound s → IsSound (on_alarm id l s)
unfolding on_alarm
on_alarm-IsSound s id l v = same_alarms s id _ v
