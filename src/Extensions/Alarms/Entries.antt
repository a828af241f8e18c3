-- ===== src/Extensions/Alarms/Entries.antt =====
-- One alarm that is armed, removed or let go: the registry stays sound but for that alarm.
use zeolite.Prelude.{
  ℕ, ◌-◌, ◌≡◌, inl, inr, refl, sym, subst, ap, ◌∙◌, false, some, ◌==◌, ==_iff, ==_refl, text_eq,
  nat_eq, Option-cases, Bool-cases, arith,
}
use zeolite.Prelude.Maps.{get, delete, get-set, get-delete}
use zeolite.Text.{Text}
use zeolite.Extensions.Alarms.{
  Alarm, Entry, Pending, Registry, reg, entry_of, release, arm_entry, remove_entry,
}
use zeolite.Extensions.Alarms.Timers.{
  Distinct-set, Distinct-delete, IsSoundBut, at, IsSound, timers_apart, entry_of-at,
  entry_of-arm_entry, entry_of-remove_entry, set_ext-Distinct,
}

-- The timers without one of them, which ran for the entry.
pub without_timer :
    (s : Registry) (id name : Text) (e : Entry)
    → IsSound s
    → entry_of s id name ≡ some e
    → IsSoundBut (at id name) (record s { timers = delete e.timer s.timers })
unfolding entry_of
without_timer s id name e v h = record {
  armed = λ j n f g out.
      let mine = v.armed id name e h refl in
      let theirs = v.armed j n f g refl in
      elim (Bool-cases (e.timer == f.timer)) [
        | inl same ↦ absurd (
            ground (
              arith,
              out,
              timers_apart s id name j n e f mine theirs ((==_iff e.timer f.timer).0 same),
            ))
        | inr other ↦ record {
          pending = theirs.pending;
          running = ground (arith, get-delete e.timer f.timer s.timers, other, theirs.running);
          of_ext = theirs.of_ext;
          of_alarm = theirs.of_alarm;
          named = theirs.named;
        }
      ];
  owned = λ t p g.
      let other : (e.timer == t) ≡ false = ground (arith, get-delete e.timer t s.timers, g) in
      let before : get t s.timers ≡ some p =
        ground (arith, get-delete e.timer t s.timers, g, other) in
      let (o, f, found, timer) = v.owned t p before in
      let out : at id name p.ext p.alarm.name ≡ false =
        elim (Bool-cases (at id name p.ext p.alarm.name)) [
          | inr o ↦ o
          | inl hit ↦
              let same : entry_of s id name ≡ some f =
                entry_of-at s id name p.ext p.alarm.name hit ∙ found in
              absurd (ground (arith, h, same, timer, other, ==_iff e.timer t))
        ] in
      (out, f, found, timer);
  fresh = λ t later. ground (arith, get-delete e.timer t s.timers, v.fresh t later);
  distinct = v.distinct;
}

-- An entry that is let go, if there is one.
pub release-IsSoundBut :
    (s : Registry) (id name : Text)
    → IsSound s
    → IsSoundBut (at id name) (release (entry_of s id name) s)
unfolding release
release-IsSoundBut s id name v = elim (Option-cases (entry_of s id name)) [
  | inr (e, h) ↦ rw (h) (without_timer s id name e v h)
  | inl n ↦ rw (n) (record {
    armed = λ j k f g out. v.armed j k f g refl;
    owned = λ t p g.
        let (o, f, found, timer) = v.owned t p g in
        let out : at id name p.ext p.alarm.name ≡ false =
          elim (Bool-cases (at id name p.ext p.alarm.name)) [
            | inr o ↦ o
            | inl hit ↦
                let same : entry_of s id name ≡ some f =
                  entry_of-at s id name p.ext p.alarm.name hit ∙ found in
                absurd (ground (arith, n, same))
          ] in
        (out, f, found, timer);
    fresh = v.fresh;
    distinct = v.distinct;
  })
]

-- An alarm that is armed again fills the hole.
pub arm_entry-IsSound :
    (s : Registry) (id : Text) (now : ℕ) (alarm : Alarm)
    → IsSoundBut (at id alarm.name) s
    → IsSound (arm_entry id now alarm s)
unfolding arm_entry
arm_entry-IsSound s id now alarm v =
    let after = arm_entry id now alarm s in
    let pending : Pending = record { ext = id; alarm = alarm; delay = alarm.scheduled - now } in
    let new : Entry = record { timer = s.next_timer; alarm = alarm } in
    record {
      armed = λ j n f g out. elim (Bool-cases (at id alarm.name j n)) [
        | inl hit ↦
            let same : f ≡ new = ground (arith, g, hit, entry_of-arm_entry id now alarm j n s) in
            let own : get s.next_timer after.timers ≡ some pending =
              ground
                (arith, get-set s.next_timer s.next_timer pending s.timers, ==_refl s.next_timer) in
            record {
              pending = pending;
              running = rw same own;
              of_ext = (==_iff id j).0 (ground (arith, hit));
              of_alarm = ap (λ e. e.alarm) (sym same);
              named = ap (λ e. e.alarm.name) same ∙ (==_iff alarm.name n).0 (ground (arith, hit));
            }
        | inr miss ↦
            let before : entry_of s j n ≡ some f =
              ground (arith, g, miss, entry_of-arm_entry id now alarm j n s) in
            let theirs = v.armed j n f before miss in
            record {
              pending = theirs.pending;
              running = ground (
                arith,
                theirs.running,
                get-set s.next_timer f.timer pending s.timers,
                v.fresh s.next_timer (omega arith),
                ==_iff s.next_timer f.timer,
              );
              of_ext = theirs.of_ext;
              of_alarm = theirs.of_alarm;
              named = theirs.named;
            }
      ];
      owned = λ t p g. elim (Bool-cases (s.next_timer == t)) [
        | inl own ↦
            let same : p ≡ pending =
              ground (arith, g, own, get-set s.next_timer t pending s.timers) in
            let found : entry_of after id alarm.name ≡ some new = ground (
              arith,
              entry_of-arm_entry id now alarm id alarm.name s,
              ==_refl id,
              ==_refl alarm.name,
            ) in
            (
              refl,
              new,
              subst (λ q. entry_of after q.ext q.alarm.name ≡ some new) (sym same) found,
              (==_iff s.next_timer t).0 own,
            )
        | inr other ↦
            let before : get t s.timers ≡ some p =
              ground (arith, g, other, get-set s.next_timer t pending s.timers) in
            let (out, f, found, timer) = v.owned t p before in
            (
              refl,
              f,
              ground (arith, out, found, entry_of-arm_entry id now alarm p.ext p.alarm.name s),
              timer,
            )
      ];
      fresh = λ t later.
          ground (
            arith,
            later,
            get-set s.next_timer t pending s.timers,
            v.fresh t (omega (arith, later)),
          );
      distinct =
          set_ext-Distinct id _ s after refl
            (Distinct-set alarm.name new (reg id s).alarms (v.distinct id)) v.distinct;
    }

-- An alarm that is removed fills it too.
pub remove_entry-IsSound :
    (s : Registry) (id name : Text) → IsSoundBut (at id name) s → IsSound (remove_entry id name s)
unfolding remove_entry
remove_entry-IsSound s id name v =
    let after = remove_entry id name s in
    record {
      armed = λ j n f g out.
          let miss : at id name j n ≡ false =
            ground (arith, g, entry_of-remove_entry id name j n s) in
          let before : entry_of s j n ≡ some f =
            ground (arith, g, miss, entry_of-remove_entry id name j n s) in
          let theirs = v.armed j n f before miss in
          record {
            pending = theirs.pending;
            running = theirs.running;
            of_ext = theirs.of_ext;
            of_alarm = theirs.of_alarm;
            named = theirs.named;
          };
      owned = λ t p g.
          let (out, f, found, timer) = v.owned t p g in
          (
            refl,
            f,
            ground (arith, out, found, entry_of-remove_entry id name p.ext p.alarm.name s),
            timer,
          );
      fresh = v.fresh;
      distinct =
          set_ext-Distinct id _ s after refl
            (Distinct-delete name (reg id s).alarms (v.distinct id)) v.distinct;
    }
