-- ===== src/Spool.antt =====
-- The body spools of app/src/bodyspool.ts: what concurrent spools count, between the points where one
-- waits. Storage, its answers and the age of orphans are the platform's: they are the steps' choices.
pub mod Sums
mod Exact
pub mod Budget
use zeolite.Prelude.{
  ℕ, ◌+◌, ◌-◌, ◌*◌, ◌^◌, Bool, true, false, List, [], ◌∷◌, Option, none, some, ltb, nat_eq,
  if◌then◌else◌,
}
use zeolite.Prelude.Maps.{get, set}

abbrev pub replay_spool_cap : ℕ
replay_spool_cap = 256 * 2 ^ 20

abbrev pub total_spool_budget : ℕ
total_spool_budget = 512 * 2 ^ 20

-- How far a spool is: its stream is read, its file is held, its file is gone.
pub data Phase : Type 0 where
  reading held released failed : Phase

-- `total` and `reserved` of a call.
pub record Spool : Type 0 where
  pub phase : Phase
  pub total : ℕ
  pub reserved : ℕ

-- `liveSpooledBytes`, `inFlightSpooledBytes`, `spoolSeq`, and the calls by their number.
pub record Spools : Type 0 where
  pub live : ℕ
  pub in_flight : ℕ
  pub seq : ℕ
  pub calls : List (ℕ × Spool)

abbrev pub no_spools : Spools
no_spools = record { live = 0; in_flight = 0; seq = 0; calls = [] }

unfoldable pub begin : Spools → Spools
begin s = record s {
  seq = s.seq + 1;
  calls = set s.seq (record { phase = reading; total = 0; reserved = 0 }) s.calls;
}

-- `cleanup`, run by every failure after the first byte.
unfoldable pub cleanup : ℕ → Spool → Spools → Spools
cleanup i c s = record s {
  in_flight = s.in_flight - c.reserved;
  calls = set i (record c { phase = failed; reserved = 0 }) s.calls;
}

-- A chunk of `size` bytes: over the cap it is not counted, over the budget it is counted and rolled back.
unfoldable pub read_chunk : ℕ → ℕ → ℕ → ℕ → Spool → Spools → Spools
read_chunk spool_cap budget size i c s =
    let grown = record c { total = c.total + size } in
    let counted = record grown { reserved = c.reserved + size } in
    let t = record s { in_flight = s.in_flight + size; calls = set i counted s.calls } in
    if ltb spool_cap (c.total + size)
    then cleanup i grown s
    else if ltb budget (t.live + t.in_flight)
    then cleanup i counted t
    else t

-- The file handle resolved: the bytes move from the one counter to the other.
unfoldable pub finish : ℕ → Spool → Spools → Spools
finish i c s = record s {
  in_flight = s.in_flight - c.total;
  live = s.live + c.total;
  calls = set i (record c { phase = held; reserved = 0 }) s.calls;
}

unfoldable pub release : ℕ → Spool → Spools → Spools
release i c s = record s {
  live = s.live - c.total;
  calls = set i (record c { phase = released }) s.calls;
}

-- What happens next, to the call of a number: storage answered, a chunk came, a write or the close or
-- the file failed, the stream ended, the holder released.
pub data Event : Type 0 where
  started : Event
  chunk : ℕ → ℕ → Event
  broke : ℕ → Event
  ended : ℕ → Event
  dropped : ℕ → Event

unfoldable pub is_reading : Phase → Bool
is_reading reading = true
is_reading _ = false

unfoldable pub is_held : Phase → Bool
is_held held = true
is_held _ = false

-- The call of a number, if it is in the right phase.
unfoldable pub on_call : (Phase → Bool) → ℕ → (Spool → Spools → Spools) → Spools → Spools
on_call ready i act s = elim (get i s.calls) [
  | none ↦ s
  | some c ↦ if ready c.phase then act c s else s
]

unfoldable pub step : ℕ → ℕ → Event → Spools → Spools
step spool_cap budget started s = begin s
step spool_cap budget (chunk size i) s = on_call is_reading i (read_chunk spool_cap budget size i) s
step spool_cap budget (broke i) s = on_call is_reading i (cleanup i) s
step spool_cap budget (ended i) s = on_call is_reading i (finish i) s
step spool_cap budget (dropped i) s = on_call is_held i (release i) s

unfoldable pub run : ℕ → ℕ → List Event → Spools → Spools
run spool_cap budget [] s = s
run spool_cap budget (e ∷ es) s = run spool_cap budget es (step spool_cap budget e s)
