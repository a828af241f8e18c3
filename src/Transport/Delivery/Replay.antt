-- ===== src/Transport/Delivery/Replay.antt =====
-- What the delivery evidence lets a caller do: when a request may be sent again.
use zeolite.Prelude.{◌≡◌, refl, ◌≢◌, ◌↔◌, true, false, arith}
use zeolite.Transport.Delivery.{
  DeliveryTransport, not_delivered, unknown, widen, Cause, abort_error, other, transport_error,
  Settled, resolved, thrown, delivery_state_of, after_dispatch_error, delivery_allows_replay,
  classify, attempt_delivery, delivery_response, outcome_state, prepare_delivery,
}

after_dispatch-unknown :
    (t : DeliveryTransport) (c : Cause) → delivery_state_of (after_dispatch_error t c) ≡ unknown
unfolding delivery_state_of after_dispatch_error
after_dispatch-unknown t abort_error = refl
after_dispatch-unknown t (other m) = refl
after_dispatch-unknown t (transport_error unknown t' c) = ground arith
after_dispatch-unknown t (transport_error not_delivered t' c) = refl

classify-unknown :
    (t : DeliveryTransport) (c : Cause) → delivery_state_of (classify t c unknown) ≡ unknown
unfolding classify delivery_state_of
classify-unknown t abort_error = refl
classify-unknown t (other m) = refl
classify-unknown t (transport_error s t' c) = after_dispatch-unknown t (transport_error s t' c)

module _ {R : Type 0} where
  -- When an attempt's result throws, a request that is not idempotent is not replayable: not by the
  -- outcome's state, and not by the state of the error thrown, even when the adapter itself
  -- rethrows an error that says "definitely not delivered".
  pub attempt-no_replay :
      (t : DeliveryTransport) (sent : Settled R) (c : Cause)
      → delivery_response (attempt_delivery t sent) ≡ thrown c
      → (delivery_allows_replay (outcome_state (attempt_delivery t sent)) false ≡ false)
        × (delivery_allows_replay (widen (delivery_state_of c)) false ≡ false)
  unfolding attempt_delivery delivery_response outcome_state delivery_allows_replay
  attempt-no_replay t (resolved r) c e = cc
  attempt-no_replay t (thrown d) c e = (refl, ground (arith, classify-unknown t d))

  abort-through :
      (t : DeliveryTransport) (sent : Settled R)
      → sent ≡ thrown abort_error
      → delivery_response (attempt_delivery t sent) ≡ thrown abort_error
  unfolding attempt_delivery delivery_response
  abort-through t (resolved r) e = cc
  abort-through t (thrown c) e = ground arith

  -- The caller gets a response exactly when the adapter resolved with it.
  pub attempt-response :
      (t : DeliveryTransport) (sent : Settled R) (r : R)
      → (delivery_response (attempt_delivery t sent) ≡ resolved r) ↔ (sent ≡ resolved r)
  unfolding attempt_delivery delivery_response
  attempt-response t (resolved r) s = ((λ e. e), λ e. e)
  attempt-response t (thrown c) s = ((λ e. cc), λ e. cc)

-- An initialisation that fails, with a cause that is not an abort, is reported as never dispatched,
-- and then any request may be sent again.
pub prepare-replay :
    (t : DeliveryTransport) (ready : Settled (Unit {0})) (c : Cause)
    → prepare_delivery t ready ≡ thrown c
    → c ≢ abort_error
    → delivery_allows_replay (widen (delivery_state_of c)) false ≡ true
unfolding prepare_delivery classify delivery_state_of delivery_allows_replay
prepare-replay t (resolved u) c e n = cc
prepare-replay t (thrown abort_error) c e n = absurd (n (cc))
prepare-replay t (thrown (other m)) c e n = ground arith
prepare-replay t (thrown (transport_error s u d)) c e n = ground arith
