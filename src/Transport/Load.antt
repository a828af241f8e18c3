-- ===== src/Transport/Load.antt =====
-- app/src/loadstate.ts: the upstream requests in flight, by destination host.
pub mod Inflight
use zeolite.Prelude.{
  ℕ, suc, ◌+◌, ◌-◌, Bool, true, false, Option, none, some, List, [], ◌∷◌, if◌then◌else◌, ltb,
  or_else, text_eq,
}
use zeolite.Prelude.Maps.{get, set, delete}
use zeolite.Text.{Text}
use zeolite.Url.{Url}

abbrev pub Load : Type 0
Load = List (Text × ℕ)

module _ (parse_url : Text → Option Url) where
  unfoldable pub host_of : Text → Text
  host_of dest = elim (parse_url dest) [ none ↦ [] | some u ↦ u.host ]

  abbrev enter_host : Text → Load → Load
  enter_host [] m = m
  enter_host (c ∷ h) m = set (c ∷ h) (or_else (get (c ∷ h) m) 0 + 1) m

  abbrev leave_host : Text → Load → Load
  leave_host [] m = m
  leave_host (c ∷ h) m =
      let next = or_else (get (c ∷ h) m) 1 - 1 in
      if ltb 0 next then set (c ∷ h) next m else delete (c ∷ h) m

  pub load_enter : Text → Load → Load
  load_enter dest m = enter_host (host_of dest) m

  pub load_leave : Text → Load → Load
  load_leave dest m = leave_host (host_of dest) m

unfoldable pub sum_counts : Load → ℕ
sum_counts [] = 0
sum_counts ((h, n) ∷ m) = n + sum_counts m

pub load_inflight : Option Text → Load → ℕ
load_inflight none m = sum_counts m
load_inflight (some []) m = sum_counts m
load_inflight (some (c ∷ h)) m = or_else (get (c ∷ h) m) 0
