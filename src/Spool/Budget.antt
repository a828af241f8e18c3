-- ===== src/Spool/Budget.antt =====
-- The counters of the spools are exact and stay within the budget, however the spools interleave.
use zeolite.Prelude.{
  ℕ, ◌+◌, ◌≤◌, ◌≡◌, refl, ◌∙◌, Bool, true, List, [], ◌∷◌, some, ltb, ==_refl, nat_eq, Option-cases,
  Bool-cases, inl, inr, All, arith,
}
use zeolite.Prelude.Maps.{get, set, get-set}
use zeolite.Spool.{
  Phase, reading, held, Spool, Spools, no_spools, begin, cleanup, read_chunk, finish, release,
  Event, started, chunk, broke, ended, dropped, is_reading, is_held, on_call, step, run,
}
use zeolite.Spool.Sums.{sum, held_bytes, reading_bytes, Each, Each-mono, IsOver, over_sum}
use zeolite.Spool.Exact.{
  IsExact, no_spools-IsExact, begin-IsExact, counts_more, reading_counts, reading_fair,
  cleanup-IsExact, counted, counted-IsExact, finish-IsExact, release-IsExact, IsFair-held,
}

module _ (spool_cap budget : ℕ) where
  -- Both counters are exact, and together within the budget.
  pub IsCounted : Spools → Type 0
  IsCounted s = IsExact spool_cap s × (s.live + s.in_flight ≤ budget)

  cleanup-IsCounted :
      (i : ℕ) (c : Spool) (s : Spools)
      → IsCounted s
      → get i s.calls ≡ some c
      → c.phase ≡ reading
      → IsCounted (cleanup i c s)
  unfolding IsCounted cleanup
  cleanup-IsCounted i c s (v, w) found reads =
      (cleanup-IsExact spool_cap s i c v found reads c refl, omega (arith, w))

  finish-IsCounted :
      (i : ℕ) (c : Spool) (s : Spools)
      → IsCounted s
      → get i s.calls ≡ some c
      → c.phase ≡ reading
      → IsCounted (finish i c s)
  unfolding IsCounted finish
  finish-IsCounted i c s (v, w) found reads = (
    finish-IsExact spool_cap s i c v found reads,
    omega (
      arith,
      w,
      reading_counts spool_cap s i c v found reads,
      counts_more spool_cap s i c v found,
      reading_fair spool_cap s i c v found reads,
    ),
  )

  release-IsCounted :
      (i : ℕ) (c : Spool) (s : Spools)
      → IsCounted s
      → get i s.calls ≡ some c
      → c.phase ≡ held
      → IsCounted (release i c s)
  unfolding IsCounted release
  release-IsCounted i c s (v, w) found holds =
      (release-IsExact spool_cap s i c v found holds, omega (arith, w))

  get-set_same : (i : ℕ) (d : Spool) (m : List (ℕ × Spool)) → get i (set i d m) ≡ some d
  get-set_same i d m = ground (arith, get-set i i d m, ==_refl i)

  read_chunk-IsCounted :
      (size i : ℕ) (c : Spool) (s : Spools)
      → IsCounted s
      → get i s.calls ≡ some c
      → c.phase ≡ reading
      → IsCounted (read_chunk spool_cap budget size i c s)
  unfolding IsCounted read_chunk cleanup counted
  read_chunk-IsCounted size i c s (v, w) found reads =
      elim (Bool-cases (ltb spool_cap (c.total + size))) [
        | inl over ↦ rw over (
          cleanup-IsExact spool_cap s i c v found reads (record c { total = c.total + size }) refl,
          omega (arith, w),
        )
        | inr under ↦
            let d = counted spool_cap s i c v found reads size in
            let t = record s { in_flight = s.in_flight + size; calls = set i d s.calls } in
            let x = counted-IsExact spool_cap s i c v found reads size (ground (arith, under)) in
            elim (Bool-cases (ltb budget (s.live + (s.in_flight + size)))) [
              | inl over ↦
                  rw (under, over)
                    (
                      cleanup-IsExact spool_cap t i d x (get-set_same i d s.calls) reads d refl,
                      omega (arith, w),
                    )
              | inr fits ↦ rw (under, fits) (x, ground (arith, fits))
            ]
      ]

  on_call-IsCounted :
      (ready : Phase → Bool) (i : ℕ) (act : Spool → Spools → Spools) (s : Spools)
      → IsCounted s
      → ((c : Spool) → get i s.calls ≡ some c → ready c.phase ≡ true → IsCounted (act c s))
      → IsCounted (on_call ready i act s)
  unfolding on_call IsCounted
  on_call-IsCounted ready i act s v f = elim (Option-cases (get i s.calls)) [
    | inl n ↦ rw (n, on_call) v
    | inr (c, e) ↦ elim (Bool-cases (ready c.phase)) [
      | inl r ↦ rw (e, r, on_call) (f c e r)
      | inr r ↦ rw (e, r, on_call) v
    ]
  ]

  is_reading-eq : (p : Phase) → is_reading p ≡ true → p ≡ reading
  unfolding is_reading
  is_reading-eq p h = ground (arith, h)

  is_held-eq : (p : Phase) → is_held p ≡ true → p ≡ held
  unfolding is_held
  is_held-eq p h = ground (arith, h)

  step-IsCounted : (e : Event) (s : Spools) → IsCounted s → IsCounted (step spool_cap budget e s)
  unfolding step IsCounted begin
  step-IsCounted started s (v, w) = (begin-IsExact spool_cap s v, w)
  step-IsCounted (chunk size i) s v =
      on_call-IsCounted is_reading i _ s v
        (λ c e r. read_chunk-IsCounted size i c s v e (is_reading-eq c.phase r))
  step-IsCounted (broke i) s v =
      on_call-IsCounted is_reading i _ s v
        (λ c e r. cleanup-IsCounted i c s v e (is_reading-eq c.phase r))
  step-IsCounted (ended i) s v =
      on_call-IsCounted is_reading i _ s v
        (λ c e r. finish-IsCounted i c s v e (is_reading-eq c.phase r))
  step-IsCounted (dropped i) s v =
      on_call-IsCounted is_held i _ s v
        (λ c e r. release-IsCounted i c s v e (is_held-eq c.phase r))

  run-IsCounted :
      (es : List Event) (s : Spools) → IsCounted s → IsCounted (run spool_cap budget es s)
  unfolding run
  run-IsCounted [] s v = v
  run-IsCounted (e ∷ es) s v = run-IsCounted es (step spool_cap budget e s) (step-IsCounted e s v)

-- However the calls interleave, both counters are exact, together they stay within the budget, and no
-- file that is held is over the cap.
pub run-no_spools :
    (spool_cap budget : ℕ) (es : List Event)
    → let s = run spool_cap budget es no_spools in
      (s.live + s.in_flight ≤ budget)
      × (s.live ≡ sum held_bytes s.calls)
      × (s.in_flight ≡ sum reading_bytes s.calls)
      × All (λ p. held_bytes p.1 ≤ spool_cap) s.calls
unfolding IsCounted Each
run-no_spools spool_cap budget es =
    let (v, w) =
      run-IsCounted spool_cap budget es no_spools (no_spools-IsExact spool_cap, omega arith) in
    (
      w,
      v.live_exact,
      v.in_flight_exact,
      Each-mono _ (λ i c. held_bytes c ≤ spool_cap) _ (λ i c h. IsFair-held spool_cap c h.1) v.fair,
    )

-- When every call is over, whether it failed or was released, the counters are back at 0.
pub run-IsOver :
    (spool_cap budget : ℕ) (es : List Event)
    → All (λ p. IsOver p.1) (run spool_cap budget es no_spools).calls
    → ((run spool_cap budget es no_spools).live ≡ 0)
      × ((run spool_cap budget es no_spools).in_flight ≡ 0)
run-IsOver spool_cap budget es h =
    let (_, l, f, _) = run-no_spools spool_cap budget es in
    let (a, b) = over_sum _ h in (l ∙ a, f ∙ b)
