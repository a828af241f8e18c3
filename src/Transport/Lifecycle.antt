-- ===== src/Transport/Lifecycle.antt =====
-- app/src/transport-lifecycle.ts: the connection machine, its listeners and the bounded waits.
pub mod Broadcast
pub mod Waits
use zeolite.Prelude.{
  ℕ, suc, ◌+◌, ◌≡◌, refl, ◌↔◌, ◌⊎◌, inl, inr, Bool, true, false, not, ◌&&◌, Option, none, some,
  List, [], ◌∷◌, ◌++◌, arith, if◌then◌else◌, eqb, filter, HasEq,
}

pub data TransportState : Type 0 where
  idle connecting connected dead : TransportState

abbrev pub same_state : TransportState → TransportState → Bool
same_state idle idle = true
same_state connecting connecting = true
same_state connected connected = true
same_state dead dead = true
same_state _ _ = false

-- A member of the `listeners` set: a subscriber of `onTransportState`, or the listener that
-- `waitForTransportState` adds for the state that its promise waits for.
pub data Listener : Type 0 where
  observer : ℕ → Listener
  waiter : ℕ → TransportState → Listener

abbrev pub listener_id : Listener → ℕ
listener_id (observer i) = i
listener_id (waiter i s) = i

-- `told` records the calls of the subscribers, `settled` the promises with what they resolved to.
-- An observer's own code is outside the machine: it does not change the set while it is told.
pub record Machine : Type 0 where
  pub state : TransportState
  pub listeners : List Listener
  pub next_id : ℕ
  pub told : List (ℕ × TransportState)
  pub settled : List (ℕ × Bool)

unfoldable pub on_transport_state : Machine → Machine × ℕ
on_transport_state m = (
  record m { listeners = m.listeners ++ observer m.next_id ∷ []; next_id = m.next_id + 1 },
  m.next_id,
)

-- The returned unsubscribe function.
abbrev pub off : ℕ → List Listener → List Listener
off i = filter (λ l. not (eqb (listener_id l) i))

unfoldable pub unsubscribe : ℕ → Machine → Machine
unsubscribe i m = record m { listeners = off i m.listeners }

-- The call of one listener with the new state: a waiter whose state has come clears its timer,
-- leaves the set and resolves its promise with true.
pub tell : TransportState → List Listener → Machine → Machine
tell s [] m = m
tell s (observer i ∷ ls) m = tell s ls (record m { told = m.told ++ (i, s) ∷ [] })
tell s (waiter i target ∷ ls) m = tell s ls (
    if same_state s target
    then record m { listeners = off i m.listeners; settled = m.settled ++ (i, true) ∷ [] }
    else m)

unfoldable pub set_transport_state : TransportState → Machine → Machine
unfolding tell
set_transport_state next m =
    if same_state next m.state then m else tell next m.listeners (record m { state = next })

unfoldable pub wait_for_transport_state : TransportState → Machine → Machine × ℕ
wait_for_transport_state target m = (
  if same_state m.state target
      then record m { next_id = m.next_id + 1; settled = m.settled ++ (m.next_id, true) ∷ [] }
      else record m {
        next_id = m.next_id + 1;
        listeners = m.listeners ++ waiter m.next_id target ∷ [];
      },
  m.next_id,
)

abbrev pub is_waiting : ℕ → List Listener → Bool
is_waiting i [] = false
is_waiting i (observer j ∷ ls) = is_waiting i ls
is_waiting i (waiter j s ∷ ls) = if eqb j i then true else is_waiting i ls

-- The timer of a wait runs out. A timer that was cleared, or that belongs to no wait, does nothing.
unfoldable pub time_out : ℕ → Machine → Machine
time_out i m =
    if is_waiting i m.listeners
    then record m { listeners = off i m.listeners; settled = m.settled ++ (i, false) ∷ [] }
    else m

abbrev pub init : Machine
init = record { state = idle; listeners = []; next_id = 0; told = []; settled = [] }
