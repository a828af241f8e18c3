-- ===== src/Sockets/Relay/Sound.antt =====
-- What holds of the connection table at all times, and the single changes that keep it.
use zeolite.Prelude.{
  ℕ, ◌+◌, ◌≤◌, ◌<◌, ◌≡◌, refl, Bool, List, [], ◌∷◌, ◌++◌, none, some, ◌==◌, nat_eq, ==_iff, is_some,
  if◌then◌else◌, Bool-cases, inl, inr, arith,
}
use zeolite.Prelude.Maps.{get, set, delete, get-set, get-delete}
use zeolite.Text.{Text}
use zeolite.Sockets.Relay.{Conn, Told, on_close, Relay, no_conns, tell, drop}

-- How often a socket was told of its close.
unfoldable pub close_of : ℕ → ℕ × Told → ℕ
close_of rid (j, on_close _ _ _) = if j == rid then 1 else 0
close_of rid _ = 0

unfoldable pub close_count : ℕ → List (ℕ × Told) → ℕ
close_count rid [] = 0
close_count rid (e ∷ told) = close_of rid e + close_count rid told

pub close_count-append :
    (rid : ℕ) (e : ℕ × Told) (told : List (ℕ × Told))
    → close_count rid (told ++ e ∷ []) ≡ close_count rid told + close_of rid e
unfolding close_count
close_count-append rid e [] = omega arith
close_count-append rid e (t ∷ told) = omega (arith, close_count-append rid e told)

-- No number stands twice in the table.
unfoldable pub IsUnique : List (ℕ × Conn) → Type 0
IsUnique [] = Unit
IsUnique ((rid, c) ∷ m) = (get rid m ≡ none) × IsUnique m

pub set-IsUnique : (rid : ℕ) (c : Conn) (m : List (ℕ × Conn)) → IsUnique m → IsUnique (set rid c m)
unfolding IsUnique set get
set-IsUnique rid c [] v = (refl, tt)
set-IsUnique rid c ((j, d) ∷ m) (n, v) = elim (Bool-cases (j == rid)) [
  | inl same ↦ rw same (n, v)
  | inr other ↦ rw other (
    ground (arith, n, other, get-set rid j c m, ==_iff rid j, ==_iff j rid),
    set-IsUnique rid c m v,
  )
]

delete-IsUnique : (rid : ℕ) (m : List (ℕ × Conn)) → IsUnique m → IsUnique (delete rid m)
unfolding IsUnique delete get
delete-IsUnique rid [] v = tt
delete-IsUnique rid ((j, d) ∷ m) (n, v) = elim (Bool-cases (j == rid)) [
  | inl same ↦ rw same (delete-IsUnique rid m v)
  | inr other ↦ rw other (ground (arith, n, get-delete rid j m), delete-IsUnique rid m v)
]

pub record IsSound (r : Relay) : Type 0 where
  pub known : (rid : ℕ) (c : Conn) → get rid r.conns ≡ some c → rid ≤ r.rid_seq
  pub unheard : (rid : ℕ) → r.rid_seq < rid → close_count rid r.told ≡ 0
  pub quiet : (rid : ℕ) (c : Conn) → get rid r.conns ≡ some c → close_count rid r.told ≡ 0
  pub once : (rid : ℕ) → close_count rid r.told ≤ 1
  pub timed : (rid : ℕ) (c : Conn) → get rid r.conns ≡ some c → c.closing ≡ is_some c.close_timer
  pub unique : IsUnique r.conns

pub no_conns-IsSound : IsSound no_conns
unfolding IsUnique get close_count
no_conns-IsSound = record {
  known = λ rid c e. absurd cc;
  unheard = λ rid h. refl;
  quiet = λ rid c e. refl;
  once = λ rid. omega arith;
  timed = λ rid c e. absurd cc;
  unique = tt;
}

-- The table changes at one number, and the page is told nothing of a close.
pub put-IsSound :
    (r : Relay) (rid : ℕ) (c : Conn)
    → IsSound r
    → rid ≤ r.rid_seq
    → close_count rid r.told ≡ 0
    → c.closing ≡ is_some c.close_timer
    → IsSound (record r { conns = set rid c r.conns })
put-IsSound r rid c v k q t = record {
  known = λ j d e. ground (arith, e, k, v.known j d, get-set rid j c r.conns, ==_iff rid j);
  unheard = v.unheard;
  quiet = λ j d e. ground (arith, e, q, v.quiet j d, get-set rid j c r.conns, ==_iff rid j);
  once = v.once;
  timed = λ j d e. ground (arith, e, t, v.timed j d, get-set rid j c r.conns);
  unique = set-IsUnique rid c r.conns v.unique;
}

-- A socket leaves the table.
pub drop-IsSound : (r : Relay) (rid : ℕ) → IsSound r → IsSound (drop rid r)
unfolding drop
drop-IsSound r rid v = record {
  known = λ j d e. ground (arith, e, v.known j d, get-delete rid j r.conns);
  unheard = v.unheard;
  quiet = λ j d e. ground (arith, e, v.quiet j d, get-delete rid j r.conns);
  once = v.once;
  timed = λ j d e. ground (arith, e, v.timed j d, get-delete rid j r.conns);
  unique = delete-IsUnique rid r.conns v.unique;
}

-- The page is told something that is no close.
pub tell-IsSound :
    (r : Relay) (rid : ℕ) (t : Told)
    → ((j : ℕ) → close_of j (rid, t) ≡ 0)
    → IsSound r
    → IsSound (tell rid t r)
unfolding tell
tell-IsSound r rid t n v = record {
  known = v.known;
  unheard = λ j h. omega (arith, v.unheard j h, n j, close_count-append j (rid, t) r.told);
  quiet = λ j c e. omega (arith, v.quiet j c e, n j, close_count-append j (rid, t) r.told);
  once = λ j. omega (arith, v.once j, n j, close_count-append j (rid, t) r.told);
  timed = v.timed;
  unique = v.unique;
}

-- A socket that has left the table unheard is told of its close.
pub tell_close-IsSound :
    (r : Relay) (rid code : ℕ) (reason : Text) (clean : Bool)
    → IsSound r
    → rid ≤ r.rid_seq
    → get rid r.conns ≡ none
    → close_count rid r.told ≡ 0
    → IsSound (tell rid (on_close code reason clean) r)
unfolding tell close_of
tell_close-IsSound r rid code reason clean v k n q = record {
  known = v.known;
  unheard = λ j h. ground (
    arith,
    v.unheard j h,
    k,
    ==_iff rid j,
    close_count-append j (rid, on_close code reason clean) r.told,
  );
  quiet = λ j c e. ground (
    arith,
    v.quiet j c e,
    e,
    n,
    ==_iff rid j,
    close_count-append j (rid, on_close code reason clean) r.told,
  );
  once = λ j. ground (
    arith,
    v.once j,
    q,
    ==_iff rid j,
    close_count-append j (rid, on_close code reason clean) r.told,
  );
  timed = v.timed;
  unique = v.unique;
}
