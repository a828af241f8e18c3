-- ===== src/Sockets/Relay/Settles.antt =====
-- A socket that the page closes is told of its end, whatever comes before the timer of the close.
use zeolite.Prelude.{
  ℕ, ◌+◌, ◌≡◌, ◌⊎◌, inl, inr, refl, sym, subst, Bool, true, false, List, [], ◌∷◌, none, some, In,
  nat_eq, ==_iff, ==_refl, Option-cases, Bool-cases, arith,
}
use zeolite.Prelude.Maps.{get, set, get-set, get-delete}
use zeolite.Text.{Text, txt}
use zeolite.Sockets.Relay.{
  Conn, on_open, on_message, on_error, on_close, Relay, no_conns, tell, drop, fail, fail_all,
  re_register, Frame, ws_open, ws_data, ws_close, ws_error, receive, open_socket, close_socket,
  time_out, Event, opens, closes, frame, times_out, re_registers, on_conn, step, run,
}
use zeolite.Sockets.Relay.Sound.{close_of, close_count, IsUnique, IsSound, no_conns-IsSound}
use zeolite.Sockets.Relay.Steps.{conns-fail, fail-IsSound, step-IsSound, run-IsSound}
use zeolite.Sockets.Relay.Aside.{
  close_of-other, Waiting, Settled, Gone, Holds, Aside-Holds, Aside-trans, tell-Aside, drop-Aside,
  set-Aside, end-Gone, fail-Aside, fail-Gone, on_own,
}

module _ (rid : ℕ) (up : Bool) where
  fail-Holds :
      (r : Relay) (j : ℕ) (c : Conn) (error : Text)
      → IsSound r
      → get j r.conns ≡ some c
      → Holds rid up r
      → Holds rid up (fail j c error r)
  unfolding Holds
  fail-Holds r j c error v found h =
      on_own rid up r j c (fail j c error r) found h (fail-Aside rid up r j c error)
        (λ here closing opened own.
          subst (λ i. Holds rid up (fail i c error r)) (sym own)
            (inr (fail-Gone rid up r c error v here opened)))

  fail_all-Holds :
      (cs : List (ℕ × Conn)) (r : Relay)
      → IsUnique cs
      → ((j : ℕ) (c : Conn) → get j cs ≡ some c → get j r.conns ≡ some c)
      → IsSound r
      → Holds rid up r
      → Holds rid up (fail_all cs r)
  unfolding fail_all IsUnique get
  fail_all-Holds [] r u at v h = h
  fail_all-Holds ((j, c) ∷ cs) r (n, u) at v h =
      let here : get j r.conns ≡ some c = at j c (ground (arith, ==_refl j)) in
      let error = txt "relay re-registered" in
      fail_all-Holds cs (fail j c error r) u
        (λ i d e.
          rw (conns-fail r j c error)
            (ground (arith, e, n, at i d, get-delete j i r.conns, ==_iff j i)))
        (fail-IsSound r j c v here error) (fail-Holds r j c error v here h)

  end-Holds :
      (r : Relay) (j : ℕ) (c : Conn) (code : ℕ) (reason : Text) (clean : Bool)
      → IsSound r
      → get j r.conns ≡ some c
      → Holds rid up r
      → Holds rid up (tell j (on_close code reason clean) (drop j r))
  unfolding Holds
  end-Holds r j c code reason clean v found h =
      on_own rid up r j c _ found h
        (λ o.
          Aside-trans rid up r (drop j r) _ (drop-Aside rid up r j o) (
            tell-Aside rid up (drop j r) j _ (close_of-other rid j (on_close code reason clean) o)))
        (λ here closing opened own.
          subst (λ i. Holds rid up (tell i (on_close code reason clean) (drop i r))) (sym own)
            (inr (end-Gone rid up r c code reason clean v here)))

  -- The entry of a socket is replaced by one that is closing and open where it was.
  put-Holds :
      (r : Relay) (j : ℕ) (c d : Conn)
      → get j r.conns ≡ some c
      → (c.closing ≡ true → d.closing ≡ true)
      → (c.opened ≡ true → d.opened ≡ true)
      → Holds rid up r
      → Holds rid up (record r { conns = set j d r.conns })
  unfolding Holds Waiting
  put-Holds r j c d found closes_too opens_too h =
      on_own rid up r j c _ found h (set-Aside rid up r j d) (λ here closing opened own.
        subst (λ i. Holds rid up (record r { conns = set i d r.conns })) (sym own)
          (inl (
            d,
            ground (arith, get-set rid rid d r.conns, ==_refl rid),
            closes_too closing,
            λ u. opens_too (opened u),
          )))

  receive-Holds :
      (r : Relay) (j : ℕ) (c : Conn) (f : Frame)
      → IsSound r
      → get j r.conns ≡ some c
      → Holds rid up r
      → Holds rid up (receive j c f r)
  unfolding receive close_of
  receive-Holds r j c (ws_open protocol) v found h =
      Aside-Holds rid up _ _ (tell-Aside rid up _ j (on_open protocol) refl)
        (put-Holds r j c (record c { opened = true }) found (λ e. e) (λ e. refl) h)
  receive-Holds r j c (ws_data payload) v found h =
      Aside-Holds rid up r _ (tell-Aside rid up r j (on_message payload) refl) h
  receive-Holds r j c (ws_close code reason) v found h = end-Holds r j c code reason true v found h
  receive-Holds r j c (ws_error error) v found h = fail-Holds r j c error v found h

  open_socket-Holds :
      (taken : Bool) (r : Relay) → IsSound r → Holds rid up r → Holds rid up (open_socket taken r)
  unfolding open_socket Holds Waiting Gone Settled
  open_socket-Holds false r v (inl w) = inl w
  open_socket-Holds false r v (inr (n, k, s)) = inr (n, omega (arith, k), s)
  open_socket-Holds true r v (inl (d, found, c, o)) = inl (
    d,
    ground (
      arith,
      found,
      v.known rid d found,
      get-set (r.rid_seq + 1) rid (record { opened = false; closing = false; close_timer = none })
          r.conns,
      ==_iff (r.rid_seq + 1) rid,
    ),
    c,
    o,
  )
  open_socket-Holds true r v (inr (n, k, s)) = inr (
    ground (
      arith,
      n,
      k,
      get-set (r.rid_seq + 1) rid (record { opened = false; closing = false; close_timer = none })
          r.conns,
      ==_iff (r.rid_seq + 1) rid,
    ),
    omega (arith, k),
    s,
  )

  close_socket-Holds :
      (taken : Bool) (r : Relay) (j : ℕ) (c : Conn) (code : ℕ) (reason : Text)
      → IsSound r
      → get j r.conns ≡ some c
      → Holds rid up r
      → Holds rid up (close_socket taken j c code reason r)
  unfolding close_socket
  close_socket-Holds taken r j c code reason v found h = elim (Bool-cases c.closing) [
    | inl e ↦ rw e h
    | inr e ↦ elim (Bool-cases taken) [
      | inl t ↦
          rw (e, t)
            (put-Holds r j c (record c { closing = true; close_timer = some (code, reason) }) found
              (λ q. refl) (λ q. q) h)
      | inr t ↦ rw (e, t) (end-Holds r j c 1006 (txt "relay channel died") true v found h)
    ]
  ]

  time_out-Holds :
      (r : Relay) (j : ℕ) (c : Conn)
      → IsSound r
      → get j r.conns ≡ some c
      → Holds rid up r
      → Holds rid up (time_out j c r)
  unfolding time_out
  time_out-Holds r j c v found h = elim (Option-cases c.close_timer) [
    | inl n ↦ rw n h
    | inr ((code, reason), e) ↦ rw e (end-Holds r j c code reason true v found h)
  ]

  on_conn-Holds :
      (r : Relay) (j : ℕ) (act : Conn → Relay → Relay)
      → Holds rid up r
      → ((c : Conn) → get j r.conns ≡ some c → Holds rid up (act c r))
      → Holds rid up (on_conn j act r)
  unfolding on_conn
  on_conn-Holds r j act h f = elim (Option-cases (get j r.conns)) [
    | inl n ↦ rw (n, on_conn) h
    | inr (c, e) ↦ rw (e, on_conn) (f c e)
  ]

  step-Holds : (e : Event) (r : Relay) → IsSound r → Holds rid up r → Holds rid up (step e r)
  unfolding step re_register
  step-Holds (opens taken) r v h = open_socket-Holds taken r v h
  step-Holds (closes taken j code reason) r v h =
      on_conn-Holds r j _ h (λ c e. close_socket-Holds taken r j c code reason v e h)
  step-Holds (frame j f) r v h = on_conn-Holds r j _ h (λ c e. receive-Holds r j c f v e h)
  step-Holds (times_out j) r v h = on_conn-Holds r j _ h (λ c e. time_out-Holds r j c v e h)
  step-Holds re_registers r v h = fail_all-Holds r.conns r v.unique (λ j c e. e) v h

  run-Holds : (es : List Event) (r : Relay) → IsSound r → Holds rid up r → Holds rid up (run es r)
  unfolding run
  run-Holds [] r v h = h
  run-Holds (e ∷ es) r v h = run-Holds es (step e r) (step-IsSound e r v) (step-Holds e r v h)

  -- The page closes the socket.
  closed-Holds :
      (r : Relay) (c : Conn) (taken : Bool) (code : ℕ) (reason : Text)
      → IsSound r
      → get rid r.conns ≡ some c
      → (up ≡ true → c.opened ≡ true)
      → Holds rid up (step (closes taken rid code reason) r)
  unfolding step on_conn close_socket Holds Waiting
  closed-Holds r c taken code reason v found o = elim (Bool-cases c.closing) [
    | inl e ↦ rw (found, on_conn, e) (inl (c, found, e, o))
    | inr e ↦ elim (Bool-cases taken) [
      | inl t ↦
          let d = record c { closing = true; close_timer = some (code, reason) } in
          rw (found, on_conn, e, t)
            (inl (d, ground (arith, get-set rid rid d r.conns, ==_refl rid), refl, o))
      | inr t ↦
          rw (found, on_conn, e, t)
            (inr (end-Gone rid up r c 1006 (txt "relay channel died") true v found))
    ]
  ]

  -- The timer of a close runs out.
  timer-Gone : (r : Relay) → IsSound r → Holds rid up r → Gone rid up (step (times_out rid) r)
  unfolding step on_conn time_out Holds Waiting Gone
  timer-Gone r v (inr (n, k, s)) = rw (n, on_conn) (n, k, s)
  timer-Gone r v (inl (d, found, closing, o)) = elim (Option-cases d.close_timer) [
    | inl n ↦ absurd (ground (arith, closing, n, v.timed rid d found))
    | inr ((code, reason), e) ↦
        rw (found, on_conn, e) (end-Gone rid up r d code reason true v found)
  ]

-- A socket in the table that the page closes is, when its timer runs out, whatever calls, frames and
-- timers come before, whether the channel took the frame or not, in the table no more, and has been told
-- of a close just once; or it was not open when it was closed, and has been told of an error.
pub closes-settles :
    (es later : List Event) (rid : ℕ) (c : Conn) (taken : Bool) (code : ℕ) (reason : Text)
    → get rid (run es no_conns).conns ≡ some c
    → let r =
        step (times_out rid) (run later (step (closes taken rid code reason) (run es no_conns))) in
      (get rid r.conns ≡ none)
      × ((close_count rid r.told ≡ 1)
          ⊎ ((c.opened ≡ false) × ((error : Text) × In (rid, on_error error) r.told)))
unfolding Gone Settled
closes-settles es later rid c taken code reason found =
    let start = run es no_conns in
    let v = run-IsSound es no_conns no_conns-IsSound in
    let w = step-IsSound (closes taken rid code reason) start v in
    let h = closed-Holds rid c.opened start c taken code reason v found (λ o. o) in
    let gone =
      timer-Gone rid c.opened _ (run-IsSound later _ w) (run-Holds rid c.opened later _ w h) in
    (gone.0, gone.2)
