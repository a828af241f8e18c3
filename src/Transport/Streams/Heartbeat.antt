-- ===== src/Transport/Streams/Heartbeat.antt =====
-- The heartbeat and the counters of streams-alive.ts, over every sequence of calls.
use zeolite.Prelude.{
  ℕ, ◌+◌, ◌-◌, ◌<◌, ◌≡◌, ◌↔◌, ◌⊎◌, refl, ◌∙◌, In, inl, inr, Option, some, List, [], ◌∷◌, arith,
  if◌then◌else◌, ltb, is_some, or_else, text_eq, Option-cases, length, length-append, ◌==◌,
  list_beq_iff,
}
use zeolite.Prelude.Maps.{get, get-set, get-delete}
use zeolite.Prelude.Members.{In-append}
use zeolite.Text.{Text}
use zeolite.Url.{Url}
use zeolite.Transport.Streams.{
  Streams, init, count_up, count_down, stream_host, stream_alive, stream_done, active_streams,
}

pub data Call : Type 0 where
  alive done : Option Text → Call

-- What keeps the worker alive: the heartbeat runs exactly while a stream is active, the channels ever
-- made are the closed ones and the running one, and that one is not closed.
pub record IsTended (s : Streams) : Type 0 where
  pub armed_iff : is_some s.heartbeat ≡ ltb 0 s.active
  pub closed_rest : s.made ≡ length s.closed + (if is_some s.heartbeat then 1 else 0)
  pub channels : (i : ℕ) → (i < s.made) ↔ (In i s.closed ⊎ (s.heartbeat ≡ some i))
  pub apart : (i : ℕ) → s.heartbeat ≡ some i → ¬ In i s.closed
  pub positive : (h : Text) (n : ℕ) → get h s.by_host ≡ some n → 0 < n

count_up-positive :
    (h : Text) (m : List (Text × ℕ))
    → ((j : Text) (n : ℕ) → get j m ≡ some n → 0 < n)
    → (j : Text) (n : ℕ) → get j (count_up h m) ≡ some n
    → 0 < n
unfolding count_up
count_up-positive [] m v j n e = v j n e
count_up-positive (c ∷ h) m v j n e =
    ground (arith, v j n, get-set (c ∷ h) j (or_else (get (c ∷ h) m) 0 + 1) m)

count_down-positive :
    (h : Text) (m : List (Text × ℕ))
    → ((j : Text) (n : ℕ) → get j m ≡ some n → 0 < n)
    → (j : Text) (n : ℕ) → get j (count_down h m) ≡ some n
    → 0 < n
unfolding count_down
count_down-positive [] m v j n e = v j n e
count_down-positive (c ∷ h) m v j n e =
    ground
      (arith, v j n, get-set (c ∷ h) j (or_else (get (c ∷ h) m) 0 - 1) m, get-delete (c ∷ h) j m)

module _ (parse_url : Text → Option Url) where
  pub act : Call → Streams → Streams
  act (alive u) s = stream_alive parse_url u s
  act (done u) s = stream_done parse_url u s

  pub run : List Call → Streams → Streams
  run [] s = s
  run (c ∷ cs) s = run cs (act c s)

  by_host-alive :
      (u : Option Text) (s : Streams)
      → (stream_alive parse_url u s).by_host ≡ count_up (stream_host parse_url u) s.by_host
  unfolding stream_alive
  by_host-alive u s = ground arith

  by_host-done :
      (u : Option Text) (s : Streams)
      → (stream_done parse_url u s).by_host ≡ count_down (stream_host parse_url u) s.by_host
  unfolding stream_done
  by_host-done u s = ground arith

  done-closed_rest :
      (u : Option Text) (s : Streams)
      → s.made ≡ length s.closed + (if is_some s.heartbeat then 1 else 0)
      → let t = stream_done parse_url u s in
        t.made ≡ length t.closed + (if is_some t.heartbeat then 1 else 0)
  unfolding stream_done
  done-closed_rest u s h = elim (Option-cases s.heartbeat) [
    | inl e ↦ ground arith
    | inr (c, e) ↦ ground (arith, length-append s.closed (c ∷ []))
  ]

  done-channels :
      (u : Option Text) (s : Streams)
      → ((i : ℕ) → (i < s.made) ↔ (In i s.closed ⊎ (s.heartbeat ≡ some i)))
      → let t = stream_done parse_url u s in
        (i : ℕ) → (i < t.made) ↔ (In i t.closed ⊎ (t.heartbeat ≡ some i))
  unfolding stream_done
  done-channels u s h i = elim (Option-cases s.heartbeat) [
    | inl e ↦ ground (arith, h i)
    | inr (c, e) ↦ ground (arith, h i, In-append i s.closed (c ∷ []))
  ]

  done-apart :
      (u : Option Text) (s : Streams)
      → ((i : ℕ) → s.heartbeat ≡ some i → ¬ In i s.closed)
      → let t = stream_done parse_url u s in (i : ℕ) → t.heartbeat ≡ some i → ¬ In i t.closed
  unfolding stream_done
  done-apart u s h i = elim (Option-cases s.heartbeat) [
    | inl e ↦ ground (arith, h i)
    | inr (c, e) ↦ ground (arith, h i)
  ]

  act-IsTended : (c : Call) (s : Streams) → IsTended s → IsTended (act c s)
  unfolding act stream_alive stream_done
  act-IsTended (alive u) s v = record {
    armed_iff = ground (arith, v.armed_iff);
    closed_rest = ground (arith, v.closed_rest);
    channels = λ i. ground (arith, v.channels i);
    apart = λ i. ground (arith, v.apart i, v.channels i);
    positive =
        rw (by_host-alive u s) (count_up-positive (stream_host parse_url u) s.by_host v.positive);
  }
  act-IsTended (done u) s v = record {
    armed_iff = ground (arith, v.armed_iff);
    closed_rest = done-closed_rest u s v.closed_rest;
    channels = done-channels u s v.channels;
    apart = done-apart u s v.apart;
    positive =
        rw (by_host-done u s) (count_down-positive (stream_host parse_url u) s.by_host v.positive);
  }

  -- After any sequence of calls, balanced or not, from a tended state (the initial one is): the
  -- heartbeat runs exactly while some stream is active, the channels made are closed but for the
  -- running one, which is not, and no host is kept at zero.
  pub run-IsTended : (cs : List Call) (s : Streams) → IsTended s → IsTended (run cs s)
  unfolding run
  run-IsTended [] s v = v
  run-IsTended (c ∷ cs) s v = run-IsTended cs (act c s) (act-IsTended c s v)

  -- The count of one host that the calls give: up by one, and down by one but not below zero.
  abbrev pub host_count : Text → ℕ → List Call → ℕ
  host_count h n [] = n
  host_count h n (alive u ∷ cs) =
      host_count h (if stream_host parse_url u == h then n + 1 else n) cs
  host_count h n (done u ∷ cs) = host_count h (if stream_host parse_url u == h then n - 1 else n) cs

  count_up-get :
      (g h : Text) (m : List (Text × ℕ)) (c : ℕ)
      → or_else (get (c ∷ h) (count_up g m)) 0
        ≡ (if g == c ∷ h then or_else (get (c ∷ h) m) 0 + 1 else or_else (get (c ∷ h) m) 0)
  unfolding count_up
  count_up-get [] h m c = ground (arith, list_beq_iff [] (c ∷ h))
  count_up-get (d ∷ g) h m c = ground (
    arith,
    list_beq_iff (d ∷ g) (c ∷ h),
    get-set (d ∷ g) (c ∷ h) (or_else (get (d ∷ g) m) 0 + 1) m,
  )

  count_down-get :
      (g h : Text) (m : List (Text × ℕ)) (c : ℕ)
      → or_else (get (c ∷ h) (count_down g m)) 0
        ≡ (if g == c ∷ h then or_else (get (c ∷ h) m) 0 - 1 else or_else (get (c ∷ h) m) 0)
  unfolding count_down
  count_down-get [] h m c = ground (arith, list_beq_iff [] (c ∷ h))
  count_down-get (d ∷ g) h m c = ground (
    arith,
    list_beq_iff (d ∷ g) (c ∷ h),
    get-set (d ∷ g) (c ∷ h) (or_else (get (d ∷ g) m) 0 - 1) m,
    get-delete (d ∷ g) (c ∷ h) m,
  )

  -- What `activeStreams(host)` reports is the count of the calls for that host, floored at zero.
  pub active_streams-run :
      (cs : List Call) (c : ℕ) (h : Text) (s : Streams)
      → active_streams (some (c ∷ h)) (run cs s)
        ≡ host_count (c ∷ h) (active_streams (some (c ∷ h)) s) cs
  unfolding run active_streams act
  active_streams-run [] c h s = refl
  active_streams-run (alive u ∷ cs) c h s =
      active_streams-run cs c h (stream_alive parse_url u s)
      ∙ rw (by_host-alive u s, count_up-get (stream_host parse_url u) h s.by_host c)
  active_streams-run (done u ∷ cs) c h s =
      active_streams-run cs c h (stream_done parse_url u s)
      ∙ rw (by_host-done u s, count_down-get (stream_host parse_url u) h s.by_host c)

pub IsTended-init : IsTended init
unfolding get
IsTended-init = record {
  armed_iff = refl;
  closed_rest = omega arith;
  channels = λ i. ground arith;
  apart = λ i e. absurd (ground (arith, e));
  positive = λ h n e. cc;
}
