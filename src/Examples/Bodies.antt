-- ===== src/Examples/Bodies.antt =====
-- Runs of the range plans and of the body spools.
use zeolite.Prelude.{◌+◌, ◌≤◌, ◌≡◌, List, [], ◌∷◌, All}
use zeolite.Text.{Text}
use zeolite.Spool.{
  Event, started, chunk, ended, dropped, run, no_spools, replay_spool_cap, total_spool_budget,
}
use zeolite.Spool.Sums.{sum, held_bytes, reading_bytes}
use zeolite.Spool.Budget.{run-no_spools}

-- Two spools interleave; the second goes over the budget of 10 bytes and fails, the first is released.
abbrev history : List Event
history =
    started ∷ started ∷ chunk 4 0 ∷ chunk 3 1 ∷ chunk 2 0 ∷ chunk 5 1 ∷ ended 0 ∷ dropped 0 ∷ []

run-no_spools_example :
    let s = run replay_spool_cap total_spool_budget history no_spools in
    (s.live + s.in_flight ≤ total_spool_budget)
    × (s.live ≡ sum held_bytes s.calls)
    × (s.in_flight ≡ sum reading_bytes s.calls)
    × All (λ p. held_bytes p.1 ≤ replay_spool_cap) s.calls
run-no_spools_example = run-no_spools replay_spool_cap total_spool_budget history
