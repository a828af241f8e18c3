-- ===== src/Spool/Exact.antt =====
-- Each step keeps the counters equal to what the calls add up to.
use zeolite.Prelude.{
  ℕ, ◌+◌, ◌-◌, ◌≤◌, ◌<◌, ◌≡◌, refl, none, some, nat_eq, Option-cases, inl, inr, arith,
}
use zeolite.Prelude.Maps.{get, set}
use zeolite.Spool.{
  reading, held, released, failed, Spool, Spools, no_spools, begin, cleanup, finish, release,
}
use zeolite.Spool.Sums.{
  sum, held_bytes, reading_bytes, Each, sum-set, sum-new, get-Each, set-Each, Each-mono,
}

module _ (spool_cap : ℕ) where
  -- While a call reads, it has reserved what it has read, and no more than the cap.
  pub IsFair : Spool → Type 0
  IsFair c = elim c.phase [
    | reading ↦ (c.reserved ≡ c.total) × (c.total ≤ spool_cap)
    | held ↦ c.total ≤ spool_cap
    | _ ↦ Unit
  ]

  pub record IsExact (s : Spools) : Type 0 where
    pub live_exact : s.live ≡ sum held_bytes s.calls
    pub in_flight_exact : s.in_flight ≡ sum reading_bytes s.calls
    pub fair : Each (λ i c. (i < s.seq) × IsFair c) s.calls

  pub no_spools-IsExact : IsExact no_spools
  unfolding sum Each
  no_spools-IsExact = record { live_exact = refl; in_flight_exact = refl; fair = tt }

  -- The number of a new call is none that is there.
  fresh : (s : Spools) → IsExact s → get s.seq s.calls ≡ none
  fresh s v = elim (Option-cases (get s.seq s.calls)) [
    | inl e ↦ e
    | inr (c, e) ↦
        absurd
          (omega (arith, (get-Each (λ j x. (j < s.seq) × IsFair x) s.seq c s.calls v.fair e).0))
  ]

  pub begin-IsExact : (s : Spools) → IsExact s → IsExact (begin s)
  unfolding begin held_bytes reading_bytes IsFair
  begin-IsExact s v =
      let new : Spool = record { phase = reading; total = 0; reserved = 0 } in
      record {
        live_exact = omega (arith, v.live_exact, sum-new held_bytes s.seq new s.calls (fresh s v));
        in_flight_exact =
            omega (arith, v.in_flight_exact, sum-new reading_bytes s.seq new s.calls (fresh s v));
        fair =
            set-Each (λ j x. (j < s.seq + 1) × IsFair x) s.seq new s.calls
              (Each-mono (λ j x. (j < s.seq) × IsFair x) _ s.calls
                (λ j x h. (omega (arith, h.0), h.1)) v.fair)
              (omega arith, (refl, omega arith));
      }

  -- One call changes, and the counters with it.
  module _ (s : Spools) (i : ℕ) (c : Spool) (v : IsExact s) (found : get i s.calls ≡ some c) where
    replaced :
        (live in_flight : ℕ) (d : Spool)
        → live + held_bytes c ≡ s.live + held_bytes d
        → in_flight + reading_bytes c ≡ s.in_flight + reading_bytes d
        → IsFair d
        → IsExact (record s { live = live; in_flight = in_flight; calls = set i d s.calls })
    replaced live in_flight d l f h = record {
      live_exact = omega (arith, l, v.live_exact, sum-set held_bytes i c d s.calls found);
      in_flight_exact =
          omega (arith, f, v.in_flight_exact, sum-set reading_bytes i c d s.calls found);
      fair =
          set-Each (λ j x. (j < s.seq) × IsFair x) i d s.calls v.fair
            ((get-Each (λ j x. (j < s.seq) × IsFair x) i c s.calls v.fair found).0, h);
    }

    gone : Spool
    gone = record c { phase = failed; reserved = 0 }

    pub counts_more : (held_bytes c ≤ s.live) × (reading_bytes c ≤ s.in_flight)
    unfolding gone held_bytes reading_bytes
    counts_more = (
      omega (arith, v.live_exact, sum-set held_bytes i c gone s.calls found),
      omega (arith, v.in_flight_exact, sum-set reading_bytes i c gone s.calls found),
    )

    found-IsFair : IsFair c
    found-IsFair = (get-Each (λ j x. (j < s.seq) × IsFair x) i c s.calls v.fair found).1

    module _ (reads : c.phase ≡ reading) where
      pub reading_counts : (held_bytes c ≡ 0) × (reading_bytes c ≡ c.reserved)
      unfolding held_bytes reading_bytes
      reading_counts = rw reads (refl, refl)

      pub reading_fair : (c.reserved ≡ c.total) × (c.total ≤ spool_cap)
      unfolding IsFair
      reading_fair = rw reads at found-IsFair

      pub cleanup-IsExact : (g : Spool) → g.reserved ≡ c.reserved → IsExact (cleanup i g s)
      unfolding cleanup held_bytes reading_bytes IsFair
      cleanup-IsExact g e =
          replaced s.live (s.in_flight - g.reserved) (record g { phase = failed; reserved = 0 })
            (omega (arith, reading_counts)) (omega (arith, reading_counts, counts_more, e)) tt

      unfoldable pub counted : ℕ → Spool
      counted size = record c { total = c.total + size; reserved = c.reserved + size }

      counted_counts :
          (size : ℕ)
          → (held_bytes (counted size) ≡ 0) × (reading_bytes (counted size) ≡ c.reserved + size)
      unfolding held_bytes reading_bytes counted
      counted_counts size = rw reads (refl, refl)

      counted-IsFair : (size : ℕ) → c.total + size ≤ spool_cap → IsFair (counted size)
      unfolding IsFair counted
      counted-IsFair size h = rw reads (omega (arith, reading_fair), h)

      pub counted-IsExact :
          (size : ℕ)
          → c.total + size ≤ spool_cap
          → IsExact
              (record s { in_flight = s.in_flight + size; calls = set i (counted size) s.calls })
      counted-IsExact size h =
          replaced s.live (s.in_flight + size) (counted size)
            (omega (arith, reading_counts, counted_counts size))
            (omega (arith, reading_counts, counted_counts size)) (counted-IsFair size h)

      pub finish-IsExact : IsExact (finish i c s)
      unfolding finish held_bytes reading_bytes IsFair
      finish-IsExact =
          replaced (s.live + c.total) (s.in_flight - c.total)
            (record c { phase = held; reserved = 0 }) (omega (arith, reading_counts))
            (omega (arith, reading_counts, counts_more, reading_fair)) reading_fair.1

    pub release-IsExact : c.phase ≡ held → IsExact (release i c s)
    unfolding release held_bytes reading_bytes IsFair
    release-IsExact h =
        let counts : (held_bytes c ≡ c.total) × (reading_bytes c ≡ 0) = rw h (refl, refl) in
        replaced (s.live - c.total) s.in_flight (record c { phase = released })
          (omega (arith, counts, counts_more)) (omega (arith, counts)) tt

  pub IsFair-held : (c : Spool) → IsFair c → held_bytes c ≤ spool_cap
  unfolding IsFair held_bytes
  IsFair-held c h = ground (arith, h)
