-- ===== src/Sockets/Relay/Aside.antt =====
-- One socket among the others: what changes it not, and how it ends.
use zeolite.Prelude.{
  ℕ, ◌≤◌, ◌≡◌, ◌⊎◌, inl, inr, refl, ◌∙◌, subst, Bool, true, false, [], ◌∷◌, ◌++◌, none, some, In,
  nat_eq, ◌==◌, ==_iff, ==_refl, Bool-cases, arith,
}
use zeolite.Prelude.Maps.{get, set, delete, get-set, get-delete}
use zeolite.Prelude.Members.{In-append}
use zeolite.Text.{Text}
use zeolite.Sockets.Relay.{
  Conn, Told, on_open, on_message, on_error, on_close, Relay, tell, drop, fail,
}
use zeolite.Sockets.Relay.Sound.{close_of, close_count, close_count-append, IsSound}

pub close_of-other : (rid j : ℕ) (t : Told) → (j == rid) ≡ false → close_of rid (j, t) ≡ 0
unfolding close_of
close_of-other rid j (on_open p) h = refl
close_of-other rid j (on_message p) h = refl
close_of-other rid j (on_error p) h = refl
close_of-other rid j (on_close code reason clean) h = ground (arith, h)

module _ (rid : ℕ) (up : Bool) where
  -- The socket waits for its close, and is open if it was.
  unfoldable pub Waiting : Relay → Type 0
  Waiting r =
      (d : Conn) × (get rid r.conns ≡ some d) × (d.closing ≡ true) × ((up ≡ true) → d.opened ≡ true)

  -- The socket has been told of its close once, or, not yet open, of an error.
  unfoldable pub Settled : Relay → Type 0
  Settled r =
      (close_count rid r.told ≡ 1)
      ⊎ ((up ≡ false) × ((error : Text) × In (rid, on_error error) r.told))

  unfoldable pub Gone : Relay → Type 0
  Gone r = (get rid r.conns ≡ none) × (rid ≤ r.rid_seq) × Settled r

  unfoldable pub Holds : Relay → Type 0
  Holds r = Waiting r ⊎ Gone r

  -- Nothing is changed of the socket.
  pub record Aside (r s : Relay) : Type 0 where
    conn : get rid s.conns ≡ get rid r.conns
    seq : r.rid_seq ≤ s.rid_seq
    closes_alike : close_count rid s.told ≡ close_count rid r.told
    errors : (error : Text) → In (rid, on_error error) r.told → In (rid, on_error error) s.told

  pub Aside-Holds : (r s : Relay) → Aside r s → Holds r → Holds s
  unfolding Holds Waiting Gone Settled
  Aside-Holds r s a (inl (d, found, c, o)) = inl (d, a.conn ∙ found, c, o)
  Aside-Holds r s a (inr (n, k, inl once)) =
      inr (a.conn ∙ n, omega (arith, k, a.seq), inl (a.closes_alike ∙ once))
  Aside-Holds r s a (inr (n, k, inr (shut, (error, i)))) =
      inr (a.conn ∙ n, omega (arith, k, a.seq), inr (shut, (error, a.errors error i)))

  pub Aside-trans : (r s t : Relay) → Aside r s → Aside s t → Aside r t
  Aside-trans r s t a b = record {
    conn = b.conn ∙ a.conn;
    seq = omega (arith, a.seq, b.seq);
    closes_alike = b.closes_alike ∙ a.closes_alike;
    errors = λ error i. b.errors error (a.errors error i);
  }

  told_later :
      (r : Relay) (j : ℕ) (t : Told) (error : Text)
      → In (rid, on_error error) r.told
      → In (rid, on_error error) (tell j t r).told
  unfolding tell
  told_later r j t error i = (In-append (rid, on_error error) r.told ((j, t) ∷ [])).1 (inl i)

  pub tell-Aside : (r : Relay) (j : ℕ) (t : Told) → close_of rid (j, t) ≡ 0 → Aside r (tell j t r)
  unfolding tell
  tell-Aside r j t none_of = record {
    conn = refl;
    seq = omega arith;
    closes_alike = omega (arith, none_of, close_count-append rid (j, t) r.told);
    errors = told_later r j t;
  }

  pub drop-Aside : (r : Relay) (j : ℕ) → (j == rid) ≡ false → Aside r (drop j r)
  unfolding drop
  drop-Aside r j h = record {
    conn = ground (arith, h, get-delete j rid r.conns, ==_iff j rid, ==_iff rid j);
    seq = omega arith;
    closes_alike = refl;
    errors = λ error i. i;
  }

  pub set-Aside :
      (r : Relay) (j : ℕ) (d : Conn)
      → (j == rid) ≡ false
      → Aside r (record r { conns = set j d r.conns })
  set-Aside r j d h = record {
    conn = ground (arith, h, get-set j rid d r.conns, ==_iff j rid, ==_iff rid j);
    seq = omega arith;
    closes_alike = refl;
    errors = λ error i. i;
  }

  pub end-Gone :
      (r : Relay) (d : Conn) (code : ℕ) (reason : Text) (clean : Bool)
      → IsSound r
      → get rid r.conns ≡ some d
      → Gone (tell rid (on_close code reason clean) (drop rid r))
  unfolding Gone Settled tell drop close_of
  end-Gone r d code reason clean v found = (
    ground (arith, get-delete rid rid r.conns, ==_refl rid),
    v.known rid d found,
    inl (
        ground (
          arith,
          v.quiet rid d found,
          ==_refl rid,
          close_count-append rid (rid, on_close code reason clean) r.told,
        )),
  )

  pub fail-Gone :
      (r : Relay) (d : Conn) (error : Text)
      → IsSound r
      → get rid r.conns ≡ some d
      → ((up ≡ true) → d.opened ≡ true)
      → Gone (fail rid d error r)
  unfolding fail Gone Settled tell drop close_of
  fail-Gone r d error v found o =
      let gone : get rid (delete rid r.conns) ≡ none =
        ground (arith, get-delete rid rid r.conns, ==_refl rid) in
      elim (Bool-cases d.opened) [
        | inl opened ↦ rw opened (
          gone,
          v.known rid d found,
          inl (
              ground (
                arith,
                v.quiet rid d found,
                ==_refl rid,
                close_count-append rid (rid, on_error error) r.told,
                close_count-append rid (rid, on_close 1006 [] false)
                    (r.told ++ (rid, on_error error) ∷ []),
              )),
        )
        | inr shut ↦ rw shut (
          gone,
          v.known rid d found,
          inr (
            ground (arith, o, shut),
            (
              error,
              (In-append (rid, on_error error) r.told ((rid, on_error error) ∷ [])).1
                  (inr (inl refl)),
            ),
          ),
        )
      ]

  pub fail-Aside :
      (r : Relay) (j : ℕ) (d : Conn) (error : Text)
      → (j == rid) ≡ false
      → Aside r (fail j d error r)
  unfolding fail
  fail-Aside r j d error h =
      let dropped = drop-Aside r j h in
      let told =
        Aside-trans r (drop j r) _ dropped
          (tell-Aside (drop j r) j (on_error error) (close_of-other rid j (on_error error) h)) in
      elim (Bool-cases d.opened) [
        | inr shut ↦ rw shut told
        | inl opened ↦ rw opened (
            Aside-trans r _ _ told (
              tell-Aside _ j (on_close 1006 [] false)
                (close_of-other rid j (on_close 1006 [] false) h)))
      ]

  -- What happens to one socket, the own one or another.
  pub on_own :
      (r : Relay) (j : ℕ) (c : Conn) (s : Relay)
      → get j r.conns ≡ some c
      → Holds r
      → ((j == rid) ≡ false → Aside r s)
      → (get rid r.conns ≡ some c
          → c.closing ≡ true
          → ((up ≡ true) → c.opened ≡ true)
          → j ≡ rid
          → Holds s)
      → Holds s
  unfolding Holds Waiting Gone
  on_own r j c s found h other same = elim (Bool-cases (j == rid)) [
    | inr differs ↦ Aside-Holds r s (other differs) h
    | inl e ↦
        let own : j ≡ rid = (==_iff j rid).0 e in
        let here : get rid r.conns ≡ some c = subst (λ i. get i r.conns ≡ some c) own found in
        elim h [
          | inr gone ↦ absurd (ground (arith, gone.0, here))
          | inl (d, there, closing, opened) ↦
              let equal : d ≡ c = ground (arith, there, here) in
              same here (subst (λ (k : Conn). k.closing ≡ true) equal closing)
                (λ u. subst (λ (k : Conn). k.opened ≡ true) equal (opened u)) own
        ]
  ]
