-- ===== src/Transport/Lifecycle/Broadcast.antt =====
-- One transition of the machine of transport-lifecycle.ts: the loop over the listeners as an atomic
-- broadcast, and the invariant of the machine.
use mathlib.Core.List.{append_assoc, append-nil}
use zeolite.Prelude.{
  ℕ, ◌+◌, ◌≤◌, ◌≡◌, refl, ap, inl, inr, Bool, true, false, not, List, [], ◌∷◌, ◌++◌, arith,
  if◌then◌else◌, eqb, filter, All, Bool-cases, filter-append,
}
use zeolite.Transport.Lifecycle.{
  TransportState, same_state, Listener, observer, waiter, listener_id, Machine, off, tell,
  set_transport_state,
}

-- The promise of a waiter that the new state resolves.
abbrev pub fires : TransportState → Listener → Bool
fires s (observer i) = false
fires s (waiter i target) = same_state s target

abbrev pub told_by : TransportState → List Listener → List (ℕ × TransportState)
told_by s [] = []
told_by s (observer i ∷ ls) = (i, s) ∷ told_by s ls
told_by s (waiter i t ∷ ls) = told_by s ls

abbrev pub settled_by : TransportState → List Listener → List (ℕ × Bool)
settled_by s [] = []
settled_by s (observer i ∷ ls) = settled_by s ls
settled_by s (waiter i t ∷ ls) =
    if same_state s t then (i, true) ∷ settled_by s ls else settled_by s ls

-- The specification of a transition: every subscriber is told once, every waiter for the new state
-- resolves with true and is gone, and nothing else changes.
abbrev pub broadcast : TransportState → Machine → Machine
broadcast s m = record m {
  state = s;
  listeners = filter (λ l. not (fires s l)) m.listeners;
  told = m.told ++ told_by s m.listeners;
  settled = m.settled ++ settled_by s m.listeners;
}

abbrev pub count_id : ℕ → List Listener → ℕ
count_id i [] = 0
count_id i (l ∷ ls) = (if eqb (listener_id l) i then 1 else 0) + count_id i ls

abbrev pub count_settled : ℕ → List (ℕ × Bool) → ℕ
count_settled i [] = 0
count_settled i ((j, b) ∷ ps) = (if eqb j i then 1 else 0) + count_settled i ps

pub count_id-append :
    (i : ℕ) (xs ys : List Listener) → count_id i (xs ++ ys) ≡ count_id i xs + count_id i ys
count_id-append i [] ys = omega arith
count_id-append i (x ∷ xs) ys = omega (arith, count_id-append i xs ys)

pub count_settled-append :
    (i : ℕ) (xs ys : List (ℕ × Bool))
    → count_settled i (xs ++ ys) ≡ count_settled i xs + count_settled i ys
count_settled-append i [] ys = omega arith
count_settled-append i (x ∷ xs) ys = omega (arith, count_settled-append i xs ys)

off_of_absent : (i : ℕ) (ls : List Listener) → count_id i ls ≡ 0 → off i ls ≡ ls
off_of_absent i [] h = refl
off_of_absent i (l ∷ ls) h = ground (arith, off_of_absent i ls)

off-append_one :
    (pre ls : List Listener) (l : Listener)
    → ((i : ℕ) → count_id i (pre ++ l ∷ ls) ≤ 1)
    → off (listener_id l) (pre ++ l ∷ ls) ≡ pre ++ ls
off-append_one pre ls l once =
    let h : count_id (listener_id l) (pre ++ l ∷ ls) ≤ 1 = once (listener_id l) in
    let e : count_id (listener_id l) (pre ++ l ∷ ls)
        ≡ count_id (listener_id l) pre + count_id (listener_id l) (l ∷ ls) =
      count_id-append (listener_id l) pre (l ∷ ls) in
    rw (filter-append (λ x. not (eqb (listener_id x) (listener_id l))) pre (l ∷ ls))
      (ground (arith, off_of_absent (listener_id l) pre, off_of_absent (listener_id l) ls))

once_without :
    (pre ls : List Listener) (l : Listener) (k : ℕ)
    → count_id k (pre ++ l ∷ ls) ≤ 1
    → count_id k (pre ++ ls) ≤ 1
once_without pre ls l k h = omega (arith, count_id-append k pre (l ∷ ls), count_id-append k pre ls)

-- The loop over the set, with the listeners `pre` already called and kept.
tell-eq :
    (s : TransportState) (pre ls : List Listener) (m : Machine)
    → m.listeners ≡ pre ++ ls
    → ((i : ℕ) → count_id i (pre ++ ls) ≤ 1)
    → tell s ls m ≡ record m {
      listeners = pre ++ filter (λ l. not (fires s l)) ls;
      told = m.told ++ told_by s ls;
      settled = m.settled ++ settled_by s ls;
    }
unfolding tell
tell-eq s pre [] m e once =
    simp append-nil (ap (λ (x : List Listener). record m { listeners = x }) (simp append-nil at e))
tell-eq s pre (observer i ∷ ls) m e once = simp append_assoc at (
    tell-eq s (pre ++ observer i ∷ []) ls (record m { told = m.told ++ (i, s) ∷ [] })
      (simp append_assoc e) (λ k. simp append_assoc (once k)))
tell-eq s pre (waiter i t ∷ ls) m e once = elim (Bool-cases (same_state s t)) [
  | inl same ↦ rw same (
      simp append_assoc at (
        tell-eq s pre ls
          (record m { listeners = off i m.listeners; settled = m.settled ++ (i, true) ∷ [] })
          (rw e (off-append_one pre ls (waiter i t) once))
          (λ k. once_without pre ls (waiter i t) k (once k))))
  | inr differ ↦ rw differ (
      simp append_assoc at (
        tell-eq s (pre ++ waiter i t ∷ []) ls m (simp append_assoc e)
          (λ k. simp append_assoc (once k))))
]

-- What the machine's operations keep: identifiers are fresh, every identifier stands for at most one
-- listener or settled promise, and no waiter waits for the state that the machine is in.
pub record IsSound (m : Machine) : Type 0 where
  pub fresh : (i : ℕ) → m.next_id ≤ i → count_id i m.listeners + count_settled i m.settled ≡ 0
  pub once : (i : ℕ) → count_id i m.listeners + count_settled i m.settled ≤ 1
  pub apart : All (λ l. not (fires m.state l) ≡ true) m.listeners

-- On a sound machine a transition to another state is the broadcast, and one to the same state
-- does nothing.
pub set-broadcast :
    (next : TransportState) (m : Machine)
    → IsSound m
    → set_transport_state next m ≡ (if same_state next m.state then m else broadcast next m)
unfolding set_transport_state
set-broadcast next m sound = rw (
    tell-eq next [] m.listeners (record m { state = next }) refl (λ i. omega (arith, sound.once i)))

abbrev pub count_waiter : ℕ → List Listener → ℕ
count_waiter i [] = 0
count_waiter i (observer j ∷ ls) = count_waiter i ls
count_waiter i (waiter j t ∷ ls) = (if eqb j i then 1 else 0) + count_waiter i ls

-- A transition turns waiters into settled promises, one for one.
pub count_broadcast :
    (i : ℕ) (s : TransportState) (ls : List Listener)
    → (count_id i (filter (λ l. not (fires s l)) ls) + count_settled i (settled_by s ls)
        ≤ count_id i ls)
      × (count_waiter i (filter (λ l. not (fires s l)) ls) + count_settled i (settled_by s ls)
          ≡ count_waiter i ls)
count_broadcast i s [] = omega arith
count_broadcast i s (observer j ∷ ls) = omega (arith, count_broadcast i s ls)
count_broadcast i s (waiter j t ∷ ls) = ground (arith, count_broadcast i s ls)
