-- ===== src/Sockets/Relay.antt =====
-- The relay arm of the page's web sockets, app/src/ws-relay.ts: the connection table, the frames that
-- come in, and the events that the page is told. Whether the channel takes a frame is an argument.
pub mod Sound
mod Steps
mod Aside
pub mod Settles
pub mod Ends
use zeolite.Prelude.{
  ℕ, ◌+◌, Bool, true, false, not, List, [], ◌∷◌, ◌++◌, Option, none, some, if◌then◌else◌, nat_eq,
}
use zeolite.Prelude.Maps.{get, set, delete}
use zeolite.Text.{Text, txt}

-- `closeTimer` holds what the bounded wait for the close frame will report.
pub record Conn : Type 0 where
  pub opened : Bool
  pub closing : Bool
  pub close_timer : Option (ℕ × Text)

-- What a socket tells its page; a close has its code and whether it was clean.
pub data Told : Type 0 where
  on_open : Text → Told
  on_message : Text → Told
  on_error : Text → Told
  on_close : ℕ → Text → Bool → Told

-- `conns` and `ridSeq`, and all that the pages were told, in order.
pub record Relay : Type 0 where
  pub conns : List (ℕ × Conn)
  pub rid_seq : ℕ
  pub told : List (ℕ × Told)

abbrev pub no_conns : Relay
no_conns = record { conns = []; rid_seq = 0; told = [] }

unfoldable pub tell : ℕ → Told → Relay → Relay
tell rid t r = record r { told = r.told ++ (rid, t) ∷ [] }

-- The entry goes, and its timer with it.
unfoldable pub drop : ℕ → Relay → Relay
drop rid r = record r { conns = delete rid r.conns }

-- A socket that fails: an error, and a close only if it had opened.
unfoldable pub fail : ℕ → Conn → Text → Relay → Relay
fail rid c error r =
    let told = tell rid (on_error error) (drop rid r) in
    if c.opened then tell rid (on_close 1006 [] false) told else told

-- `relayOnReRegister`: every socket of the old port fails.
unfoldable pub fail_all : List (ℕ × Conn) → Relay → Relay
fail_all [] r = r
fail_all ((rid, c) ∷ cs) r = fail_all cs (fail rid c (txt "relay re-registered") r)

unfoldable pub re_register : Relay → Relay
re_register r = fail_all r.conns r

-- A frame from the relay, with the defaults of the source for what it leaves out.
pub data Frame : Type 0 where
  ws_open : Text → Frame
  ws_data : Text → Frame
  ws_close : ℕ → Text → Frame
  ws_error : Text → Frame

unfoldable pub receive : ℕ → Conn → Frame → Relay → Relay
receive rid c (ws_open protocol) r =
    tell rid (on_open protocol) (record r { conns = set rid (record c { opened = true }) r.conns })
receive rid c (ws_data payload) r = tell rid (on_message payload) r
receive rid c (ws_close code reason) r = tell rid (on_close code reason true) (drop rid r)
receive rid c (ws_error error) r = fail rid c error r

-- `open`: a channel that does not take the frame leaves no entry (the caller gets the exception).
unfoldable pub open_socket : Bool → Relay → Relay
open_socket taken r =
    let rid = r.rid_seq + 1 in
    if taken
    then record r {
      rid_seq = rid;
      conns = set rid (record { opened = false; closing = false; close_timer = none }) r.conns;
    }
    else record r { rid_seq = rid }

-- `close(code, reason)`.
unfoldable pub close_socket : Bool → ℕ → Conn → ℕ → Text → Relay → Relay
close_socket taken rid c code reason r =
    if c.closing
    then r
    else if taken
    then record r {
      conns = set rid (record c { closing = true; close_timer = some (code, reason) }) r.conns;
    }
    else tell rid (on_close 1006 (txt "relay channel died") true) (drop rid r)

-- The timer of a close that no frame answered.
unfoldable pub time_out : ℕ → Conn → Relay → Relay
time_out rid c r = elim c.close_timer [
  | none ↦ r
  | some (code, reason) ↦ tell rid (on_close code reason true) (drop rid r)
]

-- What happens next: the page opens or closes a socket, a frame comes in, a timer runs out, the
-- embedder registers again. A socket that is not in the table is left alone.
pub data Event : Type 0 where
  opens : Bool → Event
  closes : Bool → ℕ → ℕ → Text → Event
  frame : ℕ → Frame → Event
  times_out : ℕ → Event
  re_registers : Event

unfoldable pub on_conn : ℕ → (Conn → Relay → Relay) → Relay → Relay
on_conn rid act r = elim (get rid r.conns) [ none ↦ r | some c ↦ act c r ]

unfoldable pub step : Event → Relay → Relay
step (opens taken) r = open_socket taken r
step (closes taken rid code reason) r =
    on_conn rid (λ c s. close_socket taken rid c code reason s) r
step (frame rid f) r = on_conn rid (λ c s. receive rid c f s) r
step (times_out rid) r = on_conn rid (time_out rid) r
step re_registers r = re_register r

unfoldable pub run : List Event → Relay → Relay
run [] r = r
run (e ∷ es) r = run es (step e r)
