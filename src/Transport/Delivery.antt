-- ===== src/Transport/Delivery.antt =====
-- app/src/delivery.ts: evidence of what a failed attempt did, and what it allows.
pub mod Replay
use zeolite.Prelude.{
  ℕ, ◌≡◌, refl, Bool, true, false, ◌&&◌, ◌||◌, Option, none, some, arith, if◌then◌else◌,
}
use zeolite.Text.{Text}

pub data DeliveryState : Type 0 where
  definitely_not_delivered delivered_response delivery_unknown : DeliveryState

pub data DeliveryTransport : Type 0 where
  wisp wisp_route relay : DeliveryTransport

-- The states that an error can carry: `Exclude<DeliveryState, "delivered-response">`.
pub data FailureState : Type 0 where
  not_delivered unknown : FailureState

abbrev pub widen : FailureState → DeliveryState
widen not_delivered = definitely_not_delivered
widen unknown = delivery_unknown

-- A thrown value: an error named AbortError, any other value, or a `TransportDeliveryError` with
-- its provenance, transport and cause. The `WeakMap` entry of an error is written in its
-- constructor, with the state that it carries, and never again.
pub data Cause : Type 0 where
  abort_error : Cause
  other : Text → Cause
  transport_error : FailureState → DeliveryTransport → Cause → Cause

pub data Outcome (R : Type 0) : Type 0 where
  delivered : DeliveryTransport → R → Outcome R
  failed : FailureState → DeliveryTransport → Cause → Outcome R

-- A settled promise: its value, or what it was rejected with.
pub data Settled (R : Type 0) : Type 0 where
  resolved : R → Settled R
  thrown : Cause → Settled R

abbrev pub same_transport : DeliveryTransport → DeliveryTransport → Bool
same_transport wisp wisp = true
same_transport wisp_route wisp_route = true
same_transport relay relay = true
same_transport _ _ = false

unfoldable pub delivery_state_of : Cause → FailureState
delivery_state_of (transport_error s t c) = s
delivery_state_of _ = unknown

unfoldable pub after_dispatch_error : DeliveryTransport → Cause → Cause
after_dispatch_error t (transport_error unknown t' c) =
    if same_transport t' t
    then transport_error unknown t' c
    else transport_error unknown t (transport_error unknown t' c)
after_dispatch_error t c = transport_error unknown t c

unfoldable pub before_dispatch_failure : DeliveryTransport → Cause → Cause
before_dispatch_failure t c = transport_error not_delivered t c

pub delivery_allows_replay : DeliveryState → Bool → Bool
delivery_allows_replay delivered_response idempotent = false
delivery_allows_replay definitely_not_delivered idempotent = true
delivery_allows_replay delivery_unknown idempotent = idempotent

unfoldable pub classify : DeliveryTransport → Cause → FailureState → Cause
unfolding after_dispatch_error before_dispatch_failure
classify t abort_error s = abort_error
classify t c unknown = after_dispatch_error t c
classify t c not_delivered = before_dispatch_failure t c

module _ {R : Type 0} where
  unfoldable pub delivery_failure : DeliveryTransport → Cause → FailureState → Outcome R
  unfolding classify
  delivery_failure t c s = failed s t (classify t c s)

  pub delivery_success : DeliveryTransport → R → Outcome R
  delivery_success t r = delivered t r

  -- `send` is the adapter's call; its settled promise is the argument.
  unfoldable pub attempt_delivery : DeliveryTransport → Settled R → Outcome R
  unfolding delivery_success delivery_failure
  attempt_delivery t (resolved r) = delivery_success t r
  attempt_delivery t (thrown c) = delivery_failure t c unknown

  unfoldable pub delivery_response : Outcome R → Settled R
  delivery_response (delivered t r) = resolved r
  delivery_response (failed s t c) = thrown c

  pub outcome_state : Outcome R → DeliveryState
  outcome_state (delivered t r) = delivered_response
  outcome_state (failed s t c) = widen s

-- `prepareDelivery`: `ready` initialises the transport and cannot dispatch the request.
unfoldable pub prepare_delivery : DeliveryTransport → Settled (Unit {0}) → Settled (Unit {0})
unfolding delivery_failure delivery_response
prepare_delivery t (resolved u) = resolved tt
prepare_delivery t (thrown c) = delivery_response (delivery_failure {R = Unit} t c not_delivered)
