-- ===== src/Transport/Load/Inflight.antt =====
-- The loading indicator of loadstate.ts: the counts by host and their sum.
use zeolite.Prelude.{
  ℕ, ◌+◌, ◌-◌, ◌<◌, ◌≡◌, refl, ◌⊎◌, inr, Option, none, some, [], ◌∷◌, arith, if◌then◌else◌, or_else,
  text_eq, ◌==◌, list_beq_iff,
}
use zeolite.Prelude.Maps.{get, set, delete, get-set, get-delete}
use zeolite.Text.{Text}
use zeolite.Url.{Url}
use zeolite.Transport.Load.{
  Load, host_of, enter_host, leave_host, load_enter, load_leave, sum_counts, load_inflight,
}

-- No host is listed twice, and none at zero.
abbrev pub IsTidy : Load → Type 0
IsTidy [] = Unit
IsTidy ((h, n) ∷ m) = (get h m ≡ none) × (0 < n) × IsTidy m

sum-set :
    (h : Text) (n : ℕ) (m : Load)
    → IsTidy m
    → sum_counts (set h n m) + or_else (get h m) 0 ≡ sum_counts m + n
unfolding sum_counts get set
sum-set h n [] v = omega arith
sum-set h n ((j, k) ∷ m) v = ground (arith, sum-set h n m, list_beq_iff j h)

sum-delete :
    (h : Text) (m : Load) → IsTidy m → sum_counts (delete h m) + or_else (get h m) 0 ≡ sum_counts m
unfolding sum_counts get delete
sum-delete h [] v = omega arith
sum-delete h ((j, k) ∷ m) v = ground (arith, sum-delete h m, list_beq_iff j h)

set-IsTidy : (h : Text) (n : ℕ) (m : Load) → 0 < n → IsTidy m → IsTidy (set h n m)
unfolding get set
set-IsTidy h n [] p v = (refl, p, tt)
set-IsTidy h n ((j, k) ∷ m) p v =
    ground (arith, set-IsTidy h n m, list_beq_iff j h, list_beq_iff h j, get-set h j n m)

delete-IsTidy : (h : Text) (m : Load) → IsTidy m → IsTidy (delete h m)
unfolding get delete
delete-IsTidy h [] v = tt
delete-IsTidy h ((j, k) ∷ m) v = ground (arith, delete-IsTidy h m, get-delete h j m)

positive_of_tidy : (h : Text) (m : Load) (n : ℕ) → IsTidy m → get h m ≡ some n → 0 < n
unfolding get
positive_of_tidy h [] n v e = cc
positive_of_tidy h ((j, k) ∷ m) n v e = ground (arith, positive_of_tidy h m n)

module _ (parse_url : Text → Option Url) where
  -- `after` is `before` with a request for the host `g` begun, in every count that is reported.
  abbrev pub Begun : Text → Load → Load → Type 0
  Begun g before after =
      IsTidy after
      × (load_inflight none after ≡ load_inflight none before + (if g == [] then 0 else 1))
      × ((c : ℕ) (h : Text)
          → load_inflight (some (c ∷ h)) after
            ≡ load_inflight (some (c ∷ h)) before + (if g == c ∷ h then 1 else 0))

  enter_host-Begun : (g : Text) (m : Load) → IsTidy m → Begun g m (enter_host parse_url g m)
  unfolding load_inflight
  enter_host-Begun [] m v =
      (v, ground (arith, list_beq_iff [] []), λ c h. ground (arith, list_beq_iff [] (c ∷ h)))
  enter_host-Begun (d ∷ g) m v =
      let n : ℕ = or_else (get (d ∷ g) m) 0 + 1 in
      (
        set-IsTidy (d ∷ g) n m (omega arith) v,
        ground (arith, list_beq_iff (d ∷ g) [], sum-set (d ∷ g) n m),
        λ c h. ground (arith, list_beq_iff (d ∷ g) (c ∷ h), get-set (d ∷ g) (c ∷ h) n m),
      )

  -- Starting a request for a host adds one to the host's count and one to the sum, and touches no
  -- other host; a destination without a host counts nowhere. The accounting stays tidy: no host
  -- twice, none at zero.
  pub load_enter-Begun :
      (dest : Text) (m : Load)
      → IsTidy m
      → Begun (host_of parse_url dest) m (load_enter parse_url dest m)
  unfolding load_enter
  load_enter-Begun dest m v = enter_host-Begun (host_of parse_url dest) m v

  leave_host-Begun :
      (g : Text) (m : Load)
      → IsTidy m
      → (g ≡ []) ⊎ (0 < or_else (get g m) 0)
      → Begun g (leave_host parse_url g m) m
  unfolding load_inflight
  leave_host-Begun [] m v p =
      (v, ground (arith, list_beq_iff [] []), λ c h. ground (arith, list_beq_iff [] (c ∷ h)))
  leave_host-Begun (d ∷ g) m v p =
      let n : ℕ = or_else (get (d ∷ g) m) 1 - 1 in
      (
        v,
        ground (arith, list_beq_iff (d ∷ g) [], sum-set (d ∷ g) n m, sum-delete (d ∷ g) m),
        λ c h. ground (
          arith,
          list_beq_iff (d ∷ g) (c ∷ h),
          get-set (d ∷ g) (c ∷ h) n m,
          get-delete (d ∷ g) (c ∷ h) m,
        ),
      )

  leave_host-IsTidy : (g : Text) (m : Load) → IsTidy m → IsTidy (leave_host parse_url g m)
  leave_host-IsTidy [] m v = v
  leave_host-IsTidy (d ∷ g) m v =
      let n : ℕ = or_else (get (d ∷ g) m) 1 - 1 in
      ground (arith, set-IsTidy (d ∷ g) n m, delete-IsTidy (d ∷ g) m)

  leave_absent : (g : Text) (m : Load) → get g m ≡ none → delete g m ≡ m
  unfolding get delete
  leave_absent g [] e = refl
  leave_absent g ((j, n) ∷ m) e = ground (arith, leave_absent g m)

  -- Settling a request of a host that has one in flight undoes one start of that host in every count
  -- that is reported, and keeps the accounting tidy.
  pub load_leave-Begun :
      (dest : Text) (m : Load)
      → IsTidy m
      → 0 < or_else (get (host_of parse_url dest) m) 0
      → IsTidy (load_leave parse_url dest m)
        × Begun (host_of parse_url dest) (load_leave parse_url dest m) m
  unfolding load_leave
  load_leave-Begun dest m v p = (
    leave_host-IsTidy (host_of parse_url dest) m v,
    leave_host-Begun (host_of parse_url dest) m v (inr p),
  )

  leave_host-nothing : (g : Text) (m : Load) → get g m ≡ none → leave_host parse_url g m ≡ m
  leave_host-nothing [] m e = refl
  leave_host-nothing (d ∷ g) m e = ground (arith, leave_absent (d ∷ g) m)

  -- Settling a request of a host with nothing in flight changes nothing.
  pub load_leave-nothing :
      (dest : Text) (m : Load)
      → get (host_of parse_url dest) m ≡ none
      → load_leave parse_url dest m ≡ m
  unfolding load_leave
  load_leave-nothing dest m e = leave_host-nothing (host_of parse_url dest) m e
