-- ===== src/Extensions/Alarms/Timers.antt =====
-- The timers of the alarms: what each change of the registry in app/src/extensions/alarms.ts does to them.
use zeolite.Prelude.{
  ℕ, ◌≤◌, ◌≡◌, inl, inr, refl, sym, ap, ◌∙◌, Bool, true, false, ◌&&◌, none, some, List, [], ◌∷◌,
  ◌==◌, ==_iff, text_eq, nat_eq, if◌then◌else◌, Bool-cases, arith,
}
use zeolite.Prelude.Maps.{get, set, delete, get-set, get-delete}
use zeolite.Text.{Text}
use zeolite.Extensions.Alarms.{
  Alarm, Entry, ExtAlarms, Pending, Registry, reg, entry_of, arm_entry, remove_entry,
}

-- No key stands twice.
unfoldable pub Distinct : List (Text × Entry) → Type 0
Distinct [] = Unit
Distinct ((k, e) ∷ m) = (get k m ≡ none) × Distinct m

pub Distinct-set :
    (k : Text) (e : Entry) (m : List (Text × Entry)) → Distinct m → Distinct (set k e m)
unfolding Distinct set get
Distinct-set k e [] d = (refl, tt)
Distinct-set k e ((j, w) ∷ m) (n, d) = elim (Bool-cases (j == k)) [
  | inl same ↦ rw (same) (n, d)
  | inr other ↦
      rw (other)
        (ground (arith, get-set k j e m, other, n, ==_iff k j, ==_iff j k), Distinct-set k e m d)
]

pub Distinct-delete : (k : Text) (m : List (Text × Entry)) → Distinct m → Distinct (delete k m)
unfolding Distinct delete get
Distinct-delete k [] d = tt
Distinct-delete k ((j, w) ∷ m) (n, d) = elim (Bool-cases (j == k)) [
  | inl same ↦ rw (same) (Distinct-delete k m d)
  | inr other ↦ rw (other) (ground (arith, get-delete k j m, n), Distinct-delete k m d)
]

-- The timer of an entry runs for its alarm.
pub record Runs (s : Registry) (id name : Text) (e : Entry) : Type 0 where
  pub pending : Pending
  pub running : get e.timer s.timers ≡ some pending
  pub of_ext : pending.ext ≡ id
  pub of_alarm : pending.alarm ≡ e.alarm
  pub named : e.alarm.name ≡ name

-- Each alarm has a timer that runs for it, and each timer that runs has its alarm; of the entries of a hole
-- nothing is known, but no timer runs for them.
pub record IsSoundBut (hole : Text → Text → Bool) (s : Registry) : Type 0 where
  pub armed :
      (id name : Text) (e : Entry)
      → entry_of s id name ≡ some e
      → hole id name ≡ false
      → Runs s id name e
  pub owned :
      (t : ℕ) (p : Pending)
      → get t s.timers ≡ some p
      → (hole p.ext p.alarm.name ≡ false)
        × (e : Entry) × (entry_of s p.ext p.alarm.name ≡ some e)
        × (e.timer ≡ t)
  pub fresh : (t : ℕ) → s.next_timer ≤ t → get t s.timers ≡ none
  pub distinct : (id : Text) → Distinct (reg id s).alarms

abbrev pub nowhere : Text → Text → Bool
nowhere id name = false

abbrev pub at : Text → Text → Text → Text → Bool
at id name j n = id == j && name == n

abbrev pub IsSound : Registry → Type 0
IsSound = IsSoundBut nowhere

pub entry_of-at :
    (s : Registry) (i n j k : Text) → at i n j k ≡ true → entry_of s i n ≡ entry_of s j k
entry_of-at s i n j k h =
    let ids : i ≡ j = (==_iff i j).0 (ground (arith, h)) in
    let names : n ≡ k = (==_iff n k).0 (ground (arith, h)) in
    ap (λ x. entry_of s x n) ids ∙ ap (λ x. entry_of s j x) names

-- A timer runs for one entry only.
pub timers_apart :
    (s : Registry) (i n j k : Text) (e f : Entry)
    → Runs s i n e
    → Runs s j k f
    → e.timer ≡ f.timer
    → at i n j k ≡ true
timers_apart s i n j k e f a b h =
    let same : a.pending ≡ b.pending = ground (arith, h, a.running, b.running) in
    let ids : i ≡ j = sym a.of_ext ∙ (ap (λ p. p.ext) same ∙ b.of_ext) in
    let names : n ≡ k =
      sym a.named
      ∙ (ap (λ l. l.name) (sym a.of_alarm ∙ (ap (λ p. p.alarm) same ∙ b.of_alarm)) ∙ b.named) in
    ground (arith, ids, names, ==_iff i j, ==_iff n k)

-- The entries after a change of one extension, or of one entry.
pub entry_of-set :
    (id j n : Text) (r : ExtAlarms) (s t : Registry)
    → t.exts ≡ set id r s.exts
    → entry_of t j n ≡ (if id == j then get n r.alarms else entry_of s j n)
unfolding entry_of
entry_of-set id j n r s t h = rw (h) (ground (arith, get-set id j r s.exts))

pub entry_of_same :
    (s : Registry) (i j n : Text) → (i == j) ≡ true → get n (reg i s).alarms ≡ entry_of s j n
unfolding entry_of
entry_of_same s i j n h = ap (λ k. get n (reg k s).alarms) ((==_iff i j).0 h)

pub entry_of-arm_entry :
    (id : Text) (now : ℕ) (alarm : Alarm) (j n : Text) (s : Registry)
    → entry_of (arm_entry id now alarm s) j n ≡ (
        if at id alarm.name j n
        then some (record { timer = s.next_timer; alarm = alarm })
        else entry_of s j n)
unfolding arm_entry entry_of
entry_of-arm_entry id now alarm j n s =
    let new : Entry = record { timer = s.next_timer; alarm = alarm } in
    let alarms = set alarm.name new (reg id s).alarms in
    ground (
      arith,
      entry_of-set id j n (record (reg id s) { alarms = alarms }) s (arm_entry id now alarm s) refl,
      get-set alarm.name n new (reg id s).alarms,
      entry_of_same s id j n,
    )

pub entry_of-remove_entry :
    (id name j n : Text) (s : Registry)
    → entry_of (remove_entry id name s) j n ≡ (if at id name j n then none else entry_of s j n)
unfolding remove_entry entry_of
entry_of-remove_entry id name j n s =
    let alarms = delete name (reg id s).alarms in
    ground (
      arith,
      entry_of-set id j n (record (reg id s) { alarms = alarms }) s (remove_entry id name s) refl,
      get-delete name n (reg id s).alarms,
      entry_of_same s id j n,
    )

pub set_ext-Distinct :
    (id : Text) (r : ExtAlarms) (s t : Registry)
    → t.exts ≡ set id r s.exts
    → Distinct r.alarms
    → ((j : Text) → Distinct (reg j s).alarms)
    → (j : Text) → Distinct (reg j t).alarms
set_ext-Distinct id r s t h d v j =
    let after : get j t.exts ≡ (if id == j then some r else get j s.exts) =
      rw (h) (get-set id j r s.exts) in
    elim (Bool-cases (id == j)) [
      | inl same ↦ let here : get j t.exts ≡ some r = ground (arith, after, same) in rw here d
      | inr other ↦
          let kept : get j t.exts ≡ get j s.exts = ground (arith, after, other) in rw kept (v j)
    ]
