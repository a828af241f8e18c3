-- ===== src/Examples/Transport.antt =====
-- The transport's state machines on short runs, and the theorems about them at these values.
use zeolite.Prelude.{
  ℕ, ◌≡◌, refl, ◌↔◌, false, none, some, List, [], ◌∷◌, arith, if◌then◌else◌, text_eq, list_beq,
}
use zeolite.Prelude.Maps.{get}
use zeolite.Text.{Text, txt, split}
use zeolite.Transport.Delivery.{
  wisp, relay, widen, not_delivered, unknown, Cause, other, transport_error, Settled, resolved,
  thrown, delivery_state_of, delivery_allows_replay, attempt_delivery, delivery_response,
  outcome_state, prepare_delivery, after_dispatch_error, before_dispatch_failure, classify,
  delivery_failure,
}
use zeolite.Transport.Delivery.Replay.{attempt-no_replay, attempt-response}
use zeolite.Transport.Lifecycle.{
  connecting, connected, same_state, Machine, init, on_transport_state, set_transport_state,
  wait_for_transport_state, time_out,
}
use zeolite.Transport.Lifecycle.Broadcast.{broadcast, IsSound, set-broadcast}
use zeolite.Transport.Lifecycle.Waits.{
  subscribe, move, expire, wait, Reach, stay, go_on, IsSound-init, Reach-IsSound, tickets,
  wait-answered,
}
use zeolite.Transport.Streams
use zeolite.Transport.Streams.{active_streams}
use zeolite.Transport.Streams.Heartbeat.{
  Call, alive, done, IsTended, run, run-IsTended, IsTended-init,
}
use zeolite.Transport.Load.{Load, host_of, load_leave}
use zeolite.Transport.Load.Inflight.{IsTidy, load_leave-nothing}
use zeolite.Examples.{simple_url}

abbrev lost : Cause
lost = transport_error not_delivered wisp (other [])

rethrown :
    delivery_response (attempt_delivery {R = ℕ} relay (thrown lost))
    ≡ thrown (transport_error unknown relay lost)
unfolding delivery_response attempt_delivery delivery_failure classify after_dispatch_error
rethrown = refl

attempt-no_replay_example :
    (delivery_allows_replay (outcome_state (attempt_delivery {R = ℕ} relay (thrown lost))) false
      ≡ false)
    × (delivery_allows_replay (widen (delivery_state_of (transport_error unknown relay lost))) false
        ≡ false)
attempt-no_replay_example =
    attempt-no_replay {R = ℕ} relay (thrown lost) (transport_error unknown relay lost) rethrown

attempt-response_example :
    (delivery_response (attempt_delivery {R = ℕ} wisp (resolved 200)) ≡ resolved 200)
    ↔ (◌≡◌ {A = Settled ℕ} (resolved 200) (resolved 200))
attempt-response_example = attempt-response {R = ℕ} wisp (resolved 200) 200

refused : prepare_delivery wisp (thrown (other [])) ≡ thrown lost
unfolding prepare_delivery delivery_response delivery_failure classify before_dispatch_failure
refused = refl

-- A subscriber, a wait for `connected`, and the transition that resolves it.
abbrev waiting : Machine
waiting = (wait_for_transport_state connected (on_transport_state init).0).0

abbrev joined : Machine
joined = set_transport_state connected waiting

joined-Reach : Reach init joined
joined-Reach = go_on (go_on (go_on stay subscribe) (wait connected)) (move connected)

Reach-IsSound_example : IsSound joined
Reach-IsSound_example = Reach-IsSound joined-Reach IsSound-init

wait-answered_example :
    (tickets 0
        (time_out 0 (set_transport_state connecting (wait_for_transport_state connected init).0))
      ≡ 1)
    × IsSound
        (time_out 0 (set_transport_state connecting (wait_for_transport_state connected init).0))
wait-answered_example =
    wait-answered connected init
      (time_out 0 (set_transport_state connecting (wait_for_transport_state connected init).0))
      IsSound-init (go_on (go_on stay (move connecting)) (expire 0))

set-broadcast_example :
    set_transport_state connected waiting
    ≡ (if same_state connected waiting.state then waiting else broadcast connected waiting)
set-broadcast_example =
    set-broadcast connected waiting
      (Reach-IsSound (go_on (go_on stay subscribe) (wait connected)) IsSound-init)

abbrev address : Text
address = txt "https://a.com/x"

abbrev calls : List Call
calls = alive (some address) ∷ done none ∷ alive (some address) ∷ []

run-IsTended_example : IsTended (run simple_url calls Streams.init)
run-IsTended_example = run-IsTended simple_url calls Streams.init IsTended-init

abbrev one_load : Load
one_load = (txt "a.com", 1) ∷ []

host_of-address : host_of simple_url address ≡ txt "a.com"
unfolding host_of simple_url split
host_of-address = refl

loaded : get (host_of simple_url address) one_load ≡ some 1
unfolding host_of simple_url split get list_beq
loaded = refl

one_load-IsTidy : IsTidy one_load
unfolding get
one_load-IsTidy = (refl, omega arith, tt)

abbrev empty_load : Load
empty_load = []

unloaded : get (host_of simple_url address) empty_load ≡ none
unfolding get
unloaded = refl

load_leave-nothing_example : load_leave simple_url address [] ≡ []
load_leave-nothing_example = load_leave-nothing simple_url address [] unloaded
