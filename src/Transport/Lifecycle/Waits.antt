-- ===== src/Transport/Lifecycle/Waits.antt =====
-- The bounded waits of transport-lifecycle.ts under every order of calls and timers.

use zeolite.Prelude.{
  ℕ, ◌+◌, ◌≤◌, ◌≡◌, refl, inl, inr, true, false, not, List, [], ◌∷◌, ◌++◌, arith, if◌then◌else◌,
  eqb, All-append, All-filter, All-filter_test, Bool-cases,
}
use zeolite.Transport.Lifecycle.{
  TransportState, same_state, Listener, observer, waiter, listener_id, Machine, on_transport_state,
  off, unsubscribe, set_transport_state, wait_for_transport_state, is_waiting, time_out, init,
}
use zeolite.Transport.Lifecycle.Broadcast.{
  fires, broadcast, settled_by, count_id, count_settled, count_waiter, count_id-append,
  count_settled-append, count_broadcast, IsSound, set-broadcast,
}

count-off :
    (i k : ℕ) (ls : List Listener) → count_id k (off i ls) ≡ (if eqb i k then 0 else count_id k ls)
count-off i k [] = ground arith
count-off i k (l ∷ ls) = ground (arith, count-off i k ls)

count_waiter-off :
    (i k : ℕ) (ls : List Listener)
    → count_waiter k (off i ls) ≡ (if eqb i k then 0 else count_waiter k ls)
count_waiter-off i k [] = ground arith
count_waiter-off i k (observer j ∷ ls) = ground (arith, count_waiter-off i k ls)
count_waiter-off i k (waiter j t ∷ ls) = ground (arith, count_waiter-off i k ls)

count_waiter-append :
    (i : ℕ) (xs ys : List Listener)
    → count_waiter i (xs ++ ys) ≡ count_waiter i xs + count_waiter i ys
count_waiter-append i [] ys = omega arith
count_waiter-append i (observer j ∷ xs) ys = omega (arith, count_waiter-append i xs ys)
count_waiter-append i (waiter j t ∷ xs) ys = omega (arith, count_waiter-append i xs ys)

is_waiting-count :
    (i : ℕ) (ls : List Listener)
    → (is_waiting i ls ≡ true → 1 ≤ count_waiter i ls)
      × (is_waiting i ls ≡ false → count_waiter i ls ≡ 0)
is_waiting-count i [] = ((λ h. cc), λ h. refl)
is_waiting-count i (observer j ∷ ls) = is_waiting-count i ls
is_waiting-count i (waiter j t ∷ ls) =
    ((λ h. ground (arith, is_waiting-count i ls)), λ h. ground (arith, is_waiting-count i ls))

count_waiter-le : (i : ℕ) (ls : List Listener) → count_waiter i ls ≤ count_id i ls
count_waiter-le i [] = omega arith
count_waiter-le i (observer j ∷ ls) = omega (arith, count_waiter-le i ls)
count_waiter-le i (waiter j t ∷ ls) = omega (arith, count_waiter-le i ls)

-- Every call that changes the machine, a timer that runs out included. The function that
-- `onTransportState` returns is called for a subscriber, never for a wait.
pub data Step (m : Machine) : Machine → Type 0 where
  subscribe : Step m (on_transport_state m).0
  leave : (i : ℕ) → is_waiting i m.listeners ≡ false → Step m (unsubscribe i m)
  move : (next : TransportState) → Step m (set_transport_state next m)
  wait : (target : TransportState) → Step m (wait_for_transport_state target m).0
  expire : (i : ℕ) → Step m (time_out i m)

pub data Reach (start : Machine) : Machine → Type 0 where
  stay : Reach start start
  go_on : {m n : Machine} → Reach start m → Step m n → Reach start n

add_listener-IsSound :
    (m : Machine) (l : Listener)
    → listener_id l ≡ m.next_id
    → not (fires m.state l) ≡ true
    → IsSound m
    → IsSound (record m { next_id = m.next_id + 1; listeners = m.listeners ++ l ∷ [] })
add_listener-IsSound m l e quiet v = record {
  fresh = λ i h. ground (arith, count_id-append i m.listeners (l ∷ []), v.fresh i);
  once = λ i. ground (arith, count_id-append i m.listeners (l ∷ []), v.fresh i, v.once i);
  apart = All-append _ m.listeners (l ∷ []) v.apart (quiet, tt);
}

off-IsSound : (i : ℕ) (m : Machine) → IsSound m → IsSound (unsubscribe i m)
unfolding unsubscribe
off-IsSound i m v = record {
  fresh = λ k h. ground (arith, count-off i k m.listeners, v.fresh k);
  once = λ k. ground (arith, count-off i k m.listeners, v.once k);
  apart = All-filter _ _ m.listeners v.apart;
}

broadcast-IsSound : (s : TransportState) (m : Machine) → IsSound m → IsSound (broadcast s m)
broadcast-IsSound s m v = record {
  fresh = λ k h. omega (
    arith,
    count_broadcast k s m.listeners,
    v.fresh k h,
    count_settled-append k m.settled (settled_by s m.listeners),
  );
  once = λ k. omega (
    arith,
    count_broadcast k s m.listeners,
    v.once k,
    count_settled-append k m.settled (settled_by s m.listeners),
  );
  apart = All-filter_test _ m.listeners;
}

settle-IsSound :
    (m : Machine)
    → IsSound m
    → IsSound (record m { next_id = m.next_id + 1; settled = m.settled ++ (m.next_id, true) ∷ [] })
settle-IsSound m v = record {
  fresh =
      λ k h. ground (arith, v.fresh k, count_settled-append k m.settled ((m.next_id, true) ∷ []));
  once = λ k.
      ground
        (arith, v.fresh k, v.once k, count_settled-append k m.settled ((m.next_id, true) ∷ []));
  apart = v.apart;
}

expire-IsSound :
    (i : ℕ) (m : Machine)
    → is_waiting i m.listeners ≡ true
    → IsSound m
    → IsSound (record m { listeners = off i m.listeners; settled = m.settled ++ (i, false) ∷ [] })
expire-IsSound i m w v =
    let one : 1 ≤ count_id i m.listeners =
      omega (arith, (is_waiting-count i m.listeners).0 w, count_waiter-le i m.listeners) in
    record {
      fresh = λ k h. ground (
        arith,
        count-off i k m.listeners,
        v.fresh k,
        count_settled-append k m.settled ((i, false) ∷ []),
      );
      once = λ k. ground (
        arith,
        count-off i k m.listeners,
        v.once k,
        count_settled-append k m.settled ((i, false) ∷ []),
      );
      apart = All-filter _ _ m.listeners v.apart;
    }

not_same-quiet : (s t : TransportState) → same_state s t ≡ false → not (same_state s t) ≡ true
not_same-quiet s t h = ground arith

Step-IsSound : {m n : Machine} → Step m n → IsSound m → IsSound n
unfolding on_transport_state wait_for_transport_state time_out
Step-IsSound {m} subscribe v = add_listener-IsSound m (observer m.next_id) refl refl v
Step-IsSound {m} (leave i h) v = off-IsSound i m v
Step-IsSound {m} (move s) v = rw (set-broadcast s m v) (elim (Bool-cases (same_state s m.state)) [
  | inl e ↦ rw e v
  | inr e ↦ rw e (broadcast-IsSound s m v)
])
Step-IsSound {m} (wait t) v = elim (Bool-cases (same_state m.state t)) [
  | inl e ↦ rw e (settle-IsSound m v)
  | inr e ↦ rw e (add_listener-IsSound m (waiter m.next_id t) refl (rw e) v)
]
Step-IsSound {m} (expire i) v = elim (Bool-cases (is_waiting i m.listeners)) [
  | inl e ↦ rw e (expire-IsSound i m e v)
  | inr e ↦ rw e v
]

pub IsSound-init : IsSound init
IsSound-init = record { fresh = λ i h. omega arith; once = λ i. omega arith; apart = tt }

-- However the calls and timers are ordered, from a sound machine: identifiers stay fresh and
-- unique, so no promise settles twice, and no wait for the current state is left hanging.
pub Reach-IsSound : {m n : Machine} → Reach m n → IsSound m → IsSound n
Reach-IsSound stay v = v
Reach-IsSound (go_on r st) v = Step-IsSound st (Reach-IsSound r v)

-- The promise of the wait `i` is kept by a waiter, or settled.
abbrev pub tickets : ℕ → Machine → ℕ
tickets i m = count_waiter i m.listeners + count_settled i m.settled

broadcast-tickets :
    (i : ℕ) (s : TransportState) (m : Machine) → tickets i (broadcast s m) ≡ tickets i m
broadcast-tickets i s m = omega (
  arith,
  count_broadcast i s m.listeners,
  count_settled-append i m.settled (settled_by s m.listeners),
)

Step-tickets : (i : ℕ) {m n : Machine} → Step m n → IsSound m → tickets i m ≡ 1 → tickets i n ≡ 1
unfolding on_transport_state wait_for_transport_state time_out unsubscribe
Step-tickets i {m} subscribe v h =
    omega (arith, count_waiter-append i m.listeners (observer m.next_id ∷ []))
Step-tickets i {m} (leave j g) v h =
    ground (arith, count_waiter-off j i m.listeners, is_waiting-count j m.listeners)
Step-tickets i {m} (move s) v h = rw (set-broadcast s m v) (ground (arith, broadcast-tickets i s m))
Step-tickets i {m} (wait t) v h = ground (
  arith,
  v.fresh i,
  count_waiter-le i m.listeners,
  count_waiter-append i m.listeners (waiter m.next_id t ∷ []),
  count_settled-append i m.settled ((m.next_id, true) ∷ []),
)
Step-tickets i {m} (expire j) v h = ground (
  arith,
  v.once j,
  is_waiting-count j m.listeners,
  count_waiter-le j m.listeners,
  count_waiter-off j i m.listeners,
  count_settled-append i m.settled ((j, false) ∷ []),
)

wait-ticket :
    (t : TransportState) (m : Machine)
    → IsSound m
    → tickets m.next_id (wait_for_transport_state t m).0 ≡ 1
unfolding wait_for_transport_state
wait-ticket t m v = ground (
  arith,
  v.fresh m.next_id,
  count_waiter-le m.next_id m.listeners,
  count_waiter-append m.next_id m.listeners (waiter m.next_id t ∷ []),
  count_settled-append m.next_id m.settled ((m.next_id, true) ∷ []),
)

-- The promise of a bounded wait, issued on a sound machine, is after any later calls and timers
-- either still kept by exactly one waiter or settled exactly once: never lost, never both.
pub wait-answered :
    (t : TransportState) (m n : Machine)
    → IsSound m
    → Reach (wait_for_transport_state t m).0 n
    → (tickets m.next_id n ≡ 1) × IsSound n
wait-answered t m n v stay = (wait-ticket t m v, Step-IsSound (wait t) v)
wait-answered t m n v (go_on {m = u} r st) =
    let (one, sound) = wait-answered t m u v r in
    (Step-tickets m.next_id st sound one, Step-IsSound st sound)

-- A running timer settles its promise with false and removes its waiter; for a promise that is not
-- waiting any more it changes nothing.
pub time_out-settles :
    (i : ℕ) (m : Machine)
    → (is_waiting i m.listeners ≡ true
        → (count_waiter i (time_out i m).listeners ≡ 0)
          × ((time_out i m).settled ≡ m.settled ++ (i, false) ∷ []))
      × (is_waiting i m.listeners ≡ false → time_out i m ≡ m)
unfolding time_out
time_out-settles i m =
    ((λ w. rw w (ground (arith, count_waiter-off i i m.listeners), refl)), λ w. rw w)
