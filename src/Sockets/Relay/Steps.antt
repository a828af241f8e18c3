-- ===== src/Sockets/Relay/Steps.antt =====
-- Every step keeps the connection table sound.
use zeolite.Prelude.{
  ℕ, ◌+◌, ◌≡◌, refl, Bool, true, false, List, [], ◌∷◌, none, some, nat_eq, ==_iff, ==_refl,
  Option-cases, Bool-cases, inl, inr, arith,
}
use zeolite.Prelude.Maps.{get, delete, get-delete}
use zeolite.Text.{Text, txt}
use zeolite.Sockets.Relay.{
  Conn, on_open, on_message, on_error, on_close, Relay, tell, drop, fail, fail_all, re_register,
  Frame, ws_open, ws_data, ws_close, ws_error, receive, open_socket, close_socket, time_out, Event,
  opens, closes, frame, times_out, re_registers, on_conn, step, run,
}
use zeolite.Sockets.Relay.Sound.{
  close_of, close_count-append, IsUnique, IsSound, put-IsSound, drop-IsSound, tell-IsSound,
  tell_close-IsSound,
}

module _ (r : Relay) (rid : ℕ) (c : Conn) (v : IsSound r) (found : get rid r.conns ≡ some c) where
  dropped : get rid (drop rid r).conns ≡ none
  unfolding drop
  dropped = ground (arith, get-delete rid rid r.conns, ==_refl rid)

  -- The socket leaves the table and is told of its close.
  end-IsSound :
      (code : ℕ) (reason : Text) (clean : Bool)
      → IsSound (tell rid (on_close code reason clean) (drop rid r))
  unfolding drop
  end-IsSound code reason clean =
      tell_close-IsSound (drop rid r) rid code reason clean (drop-IsSound r rid v)
        (v.known rid c found) dropped (v.quiet rid c found)

  pub fail-IsSound : (error : Text) → IsSound (fail rid c error r)
  unfolding fail drop tell close_of
  fail-IsSound error =
      let told =
        tell-IsSound (drop rid r) rid (on_error error) (λ j. refl) (drop-IsSound r rid v) in
      elim (Bool-cases c.opened) [
        | inr shut ↦ rw shut told
        | inl up ↦ rw up (
            tell_close-IsSound (tell rid (on_error error) (drop rid r)) rid 1006 [] false told
              (v.known rid c found) dropped
              (omega
                (arith, v.quiet rid c found, close_count-append rid (rid, on_error error) r.told)))
      ]

pub conns-fail :
    (r : Relay) (rid : ℕ) (c : Conn) (error : Text)
    → (fail rid c error r).conns ≡ delete rid r.conns
unfolding fail drop tell
conns-fail r rid c error = ground arith

fail_all-IsSound :
    (cs : List (ℕ × Conn)) (r : Relay)
    → IsUnique cs
    → ((rid : ℕ) (c : Conn) → get rid cs ≡ some c → get rid r.conns ≡ some c)
    → IsSound r
    → IsSound (fail_all cs r)
unfolding fail_all IsUnique get
fail_all-IsSound [] r u at v = v
fail_all-IsSound ((rid, c) ∷ cs) r (n, u) at v =
    let here : get rid r.conns ≡ some c = at rid c (ground (arith, ==_refl rid)) in
    let error = txt "relay re-registered" in
    fail_all-IsSound cs (fail rid c error r) u
      (λ j d e.
        rw (conns-fail r rid c error)
          (ground (arith, e, n, at j d, get-delete rid j r.conns, ==_iff rid j)))
      (fail-IsSound r rid c v here error)

receive-IsSound :
    (r : Relay) (rid : ℕ) (c : Conn) (f : Frame)
    → IsSound r
    → get rid r.conns ≡ some c
    → IsSound (receive rid c f r)
unfolding receive close_of
receive-IsSound r rid c (ws_open protocol) v found =
    tell-IsSound _ rid (on_open protocol) (λ j. refl)
      (put-IsSound r rid (record c { opened = true }) v (v.known rid c found) (v.quiet rid c found)
        (v.timed rid c found))
receive-IsSound r rid c (ws_data payload) v found =
    tell-IsSound r rid (on_message payload) (λ j. refl) v
receive-IsSound r rid c (ws_close code reason) v found =
    end-IsSound r rid c v found code reason true
receive-IsSound r rid c (ws_error error) v found = fail-IsSound r rid c v found error

-- A number that is given out is not yet in the table, nor heard of.
next-IsSound : (r : Relay) → IsSound r → IsSound (record r { rid_seq = r.rid_seq + 1 })
next-IsSound r v = record {
  known = λ j c e. omega (arith, v.known j c e);
  unheard = λ j h. v.unheard j (omega (arith, h));
  quiet = v.quiet;
  once = v.once;
  timed = v.timed;
  unique = v.unique;
}

open_socket-IsSound : (taken : Bool) (r : Relay) → IsSound r → IsSound (open_socket taken r)
unfolding open_socket
open_socket-IsSound true r v =
    put-IsSound (record r { rid_seq = r.rid_seq + 1 }) (r.rid_seq + 1)
      (record { opened = false; closing = false; close_timer = none }) (next-IsSound r v)
      (omega arith) (v.unheard (r.rid_seq + 1) (omega arith)) refl
open_socket-IsSound false r v = next-IsSound r v

close_socket-IsSound :
    (taken : Bool) (r : Relay) (rid : ℕ) (c : Conn) (code : ℕ) (reason : Text)
    → IsSound r
    → get rid r.conns ≡ some c
    → IsSound (close_socket taken rid c code reason r)
unfolding close_socket
close_socket-IsSound taken r rid c code reason v found = elim (Bool-cases c.closing) [
  | inl e ↦ rw e v
  | inr e ↦ elim (Bool-cases taken) [
    | inl t ↦
        rw (e, t)
          (put-IsSound r rid (record c { closing = true; close_timer = some (code, reason) }) v
            (v.known rid c found) (v.quiet rid c found) refl)
    | inr t ↦ rw (e, t) (end-IsSound r rid c v found 1006 (txt "relay channel died") true)
  ]
]

time_out-IsSound :
    (r : Relay) (rid : ℕ) (c : Conn)
    → IsSound r
    → get rid r.conns ≡ some c
    → IsSound (time_out rid c r)
unfolding time_out
time_out-IsSound r rid c v found = elim (Option-cases c.close_timer) [
  | inl n ↦ rw n v
  | inr ((code, reason), e) ↦ rw e (end-IsSound r rid c v found code reason true)
]

on_conn-IsSound :
    (r : Relay) (rid : ℕ) (act : Conn → Relay → Relay)
    → IsSound r
    → ((c : Conn) → get rid r.conns ≡ some c → IsSound (act c r))
    → IsSound (on_conn rid act r)
unfolding on_conn
on_conn-IsSound r rid act v f = elim (Option-cases (get rid r.conns)) [
  | inl n ↦ rw (n, on_conn) v
  | inr (c, e) ↦ rw (e, on_conn) (f c e)
]

pub step-IsSound : (e : Event) (r : Relay) → IsSound r → IsSound (step e r)
unfolding step re_register
step-IsSound (opens taken) r v = open_socket-IsSound taken r v
step-IsSound (closes taken rid code reason) r v =
    on_conn-IsSound r rid _ v (λ c e. close_socket-IsSound taken r rid c code reason v e)
step-IsSound (frame rid f) r v = on_conn-IsSound r rid _ v (λ c e. receive-IsSound r rid c f v e)
step-IsSound (times_out rid) r v = on_conn-IsSound r rid _ v (λ c e. time_out-IsSound r rid c v e)
step-IsSound re_registers r v = fail_all-IsSound r.conns r v.unique (λ j c e. e) v

pub run-IsSound : (es : List Event) (r : Relay) → IsSound r → IsSound (run es r)
unfolding run
run-IsSound [] r v = v
run-IsSound (e ∷ es) r v = run-IsSound es (step e r) (step-IsSound e r v)
