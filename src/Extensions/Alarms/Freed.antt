-- ===== src/Extensions/Alarms/Freed.antt =====
-- The alarms of an extension that are all let go: their timers, and no others, are cleared.
use zeolite.Prelude.{
  ℕ, ◌≡◌, inl, inr, refl, sym, ap, ◌∙◌, Bool, true, false, ◌||◌, none, some, List, [], ◌∷◌, ◌==◌,
  ==_iff, ==_refl, text_eq, nat_eq, if◌then◌else◌, Bool-cases, arith,
}
use zeolite.Prelude.Maps.{get, get-delete}
use zeolite.Text.{Text}
use zeolite.Extensions.Alarms.{Entry, ExtAlarms, Registry, reg, entry_of, release, release_all}
use zeolite.Extensions.Alarms.Timers.{Distinct, IsSound, timers_apart}

unfoldable has_timer : ℕ → List (Text × Entry) → Bool
has_timer t [] = false
has_timer t ((name, e) ∷ es) = e.timer == t || has_timer t es

get-release_all :
    (es : List (Text × Entry)) (s : Registry) (t : ℕ)
    → get t (release_all es s).timers ≡ (if has_timer t es then none else get t s.timers)
unfolding release_all release has_timer
get-release_all [] s t = refl
get-release_all ((name, e) ∷ es) s t =
    ground (arith, get-release_all es (release (some e) s) t, get-delete e.timer t s.timers)

next_timer-release_all :
    (es : List (Text × Entry)) (s : Registry) → (release_all es s).next_timer ≡ s.next_timer
unfolding release_all release
next_timer-release_all [] s = refl
next_timer-release_all ((name, e) ∷ es) s = next_timer-release_all es (release (some e) s)

-- A timer of the list is that of an entry that is found.
has_timer-found :
    (t : ℕ) (es : List (Text × Entry))
    → Distinct es
    → has_timer t es ≡ true
    → (name : Text) × (e : Entry) × (get name es ≡ some e) × (e.timer ≡ t)
unfolding has_timer Distinct get
has_timer-found t [] d h = absurd (ground (arith, h))
has_timer-found t ((k, e) ∷ es) (n, d) h = elim (Bool-cases (e.timer == t)) [
  | inl here ↦ (k, e, ground (arith, ==_refl k), (==_iff e.timer t).0 here)
  | inr past ↦
      let (name, f, g, timer) = has_timer-found t es d (ground (arith, h, past)) in
      (name, f, ground (arith, g, n, ==_iff k name), timer)
]

found-has_timer :
    (t : ℕ) (es : List (Text × Entry)) (name : Text) (e : Entry)
    → get name es ≡ some e
    → e.timer ≡ t
    → has_timer t es ≡ true
unfolding has_timer get
found-has_timer t [] name e g h = absurd (ground (arith, g))
found-has_timer t ((k, f) ∷ es) name e g h = elim (Bool-cases (k == name)) [
  | inl same ↦
      let one : f ≡ e = ground (arith, g, same) in rw (one) (ground (arith, ==_iff e.timer t, h))
  | inr other ↦ ground (arith, found-has_timer t es name e (ground (arith, g, other)) h)
]

-- A registry that has let go all alarms of one extension, and has kept the rest, is sound.
pub freed-IsSound :
    (s after : Registry) (id : Text) (r : ExtAlarms)
    → get id s.exts ≡ some r
    → IsSound s
    → after.timers ≡ (release_all r.alarms s).timers
    → after.next_timer ≡ (release_all r.alarms s).next_timer
    → ((j n : Text) → entry_of after j n ≡ (if id == j then none else entry_of s j n))
    → ((j : Text) → Distinct (reg j after).alarms)
    → IsSound after
unfolding entry_of
freed-IsSound s after id r known v timers next entries distinct =
    let mine : (n : Text) → entry_of s id n ≡ get n r.alarms = λ n. rw (known, entry_of) refl in
    let keys : Distinct r.alarms = let d = v.distinct id in rw known at d in
    let left : (t : ℕ)
        → get t after.timers ≡ (if has_timer t r.alarms then none else get t s.timers) =
      λ t. rw (timers) (get-release_all r.alarms s t) in
    record {
      armed = λ j n f g out.
          let other : (id == j) ≡ false = ground (arith, g, entries j n) in
          let before : entry_of s j n ≡ some f = ground (arith, g, other, entries j n) in
          let theirs = v.armed j n f before refl in
          let kept : has_timer f.timer r.alarms ≡ false =
            elim (Bool-cases (has_timer f.timer r.alarms)) [
              | inr free ↦ free
              | inl held ↦
                  let (name, e, own, timer) = has_timer-found f.timer r.alarms keys held in
                  let running = v.armed id name e (mine name ∙ own) refl in
                  absurd
                    (ground (arith, other, timers_apart s id name j n e f running theirs timer))
            ] in
          record {
            pending = theirs.pending;
            running = ground (arith, left f.timer, kept, theirs.running);
            of_ext = theirs.of_ext;
            of_alarm = theirs.of_alarm;
            named = theirs.named;
          };
      owned = λ t p g.
          let kept : has_timer t r.alarms ≡ false = ground (arith, g, left t) in
          let before : get t s.timers ≡ some p = ground (arith, g, kept, left t) in
          let (out, f, found, timer) = v.owned t p before in
          let still : entry_of after p.ext p.alarm.name ≡ some f = elim (Bool-cases (id == p.ext)) [
            | inr other ↦ ground (arith, other, found, entries p.ext p.alarm.name)
            | inl same ↦
                let own : get p.alarm.name r.alarms ≡ some f =
                  sym (mine p.alarm.name)
                  ∙ (ap (λ i. entry_of s i p.alarm.name) ((==_iff id p.ext).0 same) ∙ found) in
                absurd (ground (arith, kept, found-has_timer t r.alarms p.alarm.name f own timer))
          ] in
          (refl, f, still, timer);
      fresh = λ t later. ground (
        arith,
        left t,
        v.fresh t (omega (arith, later, next, next_timer-release_all r.alarms s)),
      );
      distinct = distinct;
    }
