-- ===== src/Examples/Sockets.antt =====
-- Runs of the relay's sockets.
use zeolite.Prelude.{ℕ, ◌≤◌, ◌≡◌, refl, ◌⊎◌, In, true, false, some, none, List, [], ◌∷◌, nat_eq}
use zeolite.Prelude.Maps.{get}
use zeolite.Text.{Text, txt}
use zeolite.Sockets.Relay.{
  Conn, on_error, no_conns, Event, opens, closes, frame, times_out, re_registers, ws_open, ws_close,
  ws_error, step, run,
}
use zeolite.Sockets.Relay.Sound.{close_count}
use zeolite.Sockets.Relay.Settles.{closes-settles}

-- Three sockets: the first opens, the second is closed by the relay, the third fails.
abbrev history : List Event
history =
    opens true
    ∷ opens true
    ∷ frame 1 (ws_open (txt "chat"))
    ∷ frame 2 (ws_close 1000 [])
    ∷ opens true
    ∷ frame 3 (ws_open [])
    ∷ frame 3 (ws_error (txt "gone"))
    ∷ []

abbrev first : Conn
first = record { opened = true; closing = false; close_timer = none }

-- A fourth socket fails before the timer of the first.
abbrev between : List Event
between = opens true ∷ frame 4 (ws_error (txt "lost")) ∷ re_registers ∷ []

closes-settles_example :
    let r =
      step
        (times_out 1)
        (run between (step (closes true 1 1000 (txt "bye")) (run history no_conns))) in
    (get 1 r.conns ≡ none)
    × ((close_count 1 r.told ≡ 1)
        ⊎ ((true ≡ false) × ((error : Text) × In (1, on_error error) r.told)))
unfolding run get step zeolite.Sockets.Relay.on_conn zeolite.Sockets.Relay.open_socket
    zeolite.Prelude.Maps.set zeolite.Sockets.Relay.receive zeolite.Sockets.Relay.tell
    zeolite.Sockets.Relay.drop zeolite.Prelude.Maps.delete zeolite.Sockets.Relay.fail
closes-settles_example = closes-settles history between 1 first true 1000 (txt "bye") refl
