-- ===== src/Codec/Recover/Verified.antt =====
-- What is recovered from a tail is verified: its front is a token of a held key.
use zeolite.Prelude.{
  ℕ, zero, suc, ◌+◌, ◌-◌, ◌*◌, ◌/◌, ◌≤◌, ◌≡◌, refl, sym, ap, ◌∙◌, true, some, List, [], ◌∷◌, ◌++◌,
  length, take, drop, In, Option-cases, Bool-cases, inl, inr, arith,
}
use mathlib.Core.List.{append_assoc}
use zeolite.Text.{Text}
use zeolite.Codec.{Bytes}
use zeolite.Codec.Base64.{b64u_decode_lenient}
use zeolite.Codec.Token.{
  Utf8, mac_equals, iv_of, cipher, decipher, sealed, is_http, keystream_block,
}
use zeolite.Codec.Token.Stream.{decipher-cipher, cipher_twice}
use zeolite.Codec.Token.Opaque.{mac_equals-eq, length-take, take-drop}
use zeolite.Codec.Route.{Routes, before_query}
use zeolite.Codec.Recover.{
  after, letters_first, gate_text, try_length, try_lengths, recover_with, recover_bytes,
  recover_tail, recover_path,
}

cipher-take :
    (key iv : Bytes) (i n : ℕ) (d : Bytes) → cipher key iv i (take n d) ≡ take n (cipher key iv i d)
unfolding cipher
cipher-take key iv i zero d = refl
cipher-take key iv i (suc n) [] = refl
cipher-take key iv i (suc n) (b ∷ d) = rw (cipher-take key iv (i + 1) n d) refl

-- The IV of a front of the body makes the front of the token.
front_sealed :
    (key iv ct : Bytes) (n : ℕ)
    → iv ≡ iv_of key (take n (cipher key iv 0 ct))
    → 1 ∷ (iv ++ take n ct) ≡ sealed key (take n (cipher key iv 0 ct))
front_sealed key iv ct n e =
    ap (λ bytes. 1 ∷ bytes)
      (rw (← e) (rw (cipher-take key iv 0 n (cipher key iv 0 ct), cipher_twice key iv 0 ct) refl))

front_token :
    (key bytes : Bytes) (b n : ℕ)
    → b ≡ 1
    → take 16 bytes ≡ iv_of key (take n (cipher key (take 16 bytes) 0 (drop 16 bytes)))
    → b ∷ bytes
      ≡ sealed key (take n (cipher key (take 16 bytes) 0 (drop 16 bytes))) ++ drop n (drop 16 bytes)
front_token key bytes b n one same =
    let iv = take 16 bytes in
    let ct = drop 16 bytes in
    rw one (ap (λ s. 1 ∷ s) (sym (take-drop 16 bytes)))
    ∙ ap (λ s. 1 ∷ (iv ++ s)) (sym (take-drop n ct))
    ∙ ap (λ s. 1 ∷ s) (sym (append_assoc iv (take n ct) (drop n ct)))
    ∙ ap (λ s. s ++ drop n ct) (front_sealed key iv ct n same)

module _ (utf8 : Utf8) where
  -- A front of the text `out` is a destination, whose MACs under the key are the IV.
  record Mints (key iv d : Bytes) (tail out : Text) : Type 0 where
    size : ℕ
    cut : ℕ
    dest : Text
    mac : mac_equals key (take size d) iv ≡ true
    reads : utf8.decode (take size d) ≡ some dest
    http : is_http dest ≡ true
    joined : out ≡ dest ++ drop cut tail

  try_length-Mints :
      (key iv d : Bytes) (tail out : Text) (l : ℕ)
      → try_length utf8 key iv d tail l ≡ some out
      → Mints key iv d tail out
  unfolding try_length
  try_length-Mints key iv d tail out l e =
      elim (Option-cases (utf8.decode (take (3 * l / 4 - 17) d))) [
        | inl n ↦ absurd (ground (arith, e, n))
        | inr (dest, r) ↦ record {
          size = 3 * l / 4 - 17;
          cut = l;
          dest = dest;
          mac = ground (arith, e, r);
          reads = r;
          http = ground (arith, e, r);
          joined = ground (arith, e, r);
        }
      ]

  try_lengths-Mints :
      (key iv d : Bytes) (tail out : Text) (count l : ℕ)
      → try_lengths utf8 key iv d tail count l ≡ some out
      → Mints key iv d tail out
  unfolding try_lengths
  try_lengths-Mints key iv d tail out zero l e = absurd cc
  try_lengths-Mints key iv d tail out (suc count) l e =
      elim (Option-cases (try_length utf8 key iv d tail l)) [
        | inl n ↦ try_lengths-Mints key iv d tail out count (l + 1) (ground (arith, e, n))
        | inr (x, f) ↦ try_length-Mints key iv d tail out l (ground (arith, e, f))
      ]

  recover_with-Mints :
      (keys : List Bytes) (iv ct : Bytes) (tail out : Text) (max_l : ℕ)
      → recover_with utf8 keys iv ct tail max_l ≡ some out
      → (key : Bytes) × (In key keys) × Mints key iv (cipher key iv 0 ct) tail out
  unfolding recover_with
  recover_with-Mints [] iv ct tail out max_l e = absurd cc
  recover_with-Mints (key ∷ keys) iv ct tail out max_l e =
      elim (Bool-cases (is_http (gate_text 8 0 ct (keystream_block key iv 0)))) [
        | inr shut ↦
            let (k, held, m) =
              recover_with-Mints keys iv ct tail out max_l (ground (arith, e, shut)) in
            (k, inr held, m)
        | inl gate ↦
            elim (Option-cases
              (try_lengths utf8 key iv (decipher key iv 0 [] ct) tail (max_l + 1 - 23) 23)) [
                | inl n ↦
                    let (k, held, m) =
                      recover_with-Mints keys iv ct tail out max_l (ground (arith, e, gate, n)) in
                    (k, inr held, m)
                | inr (x, f) ↦ (
                  key,
                  inl refl,
                  rw (← decipher-cipher key iv ct) (
                      try_lengths-Mints key iv (decipher key iv 0 [] ct) tail out (max_l + 1 - 23)
                        23 (ground (arith, e, gate, f))),
                )
              ]
      ]

  -- What is recovered: the bytes of a tail begin with a token that a held key mints, and the text is
  -- its destination with the end of the tail behind it.
  pub record Recovered (r : Routes) (tail out : Text) : Type 0 where
    pub key : Bytes
    pub d : Bytes
    pub rest : Bytes
    pub dest : Text
    pub cut : ℕ
    pub held : In key r.route_keys
    pub front : b64u_decode_lenient (take (letters_first tail) tail) ≡ some (sealed key d ++ rest)
    pub reads : utf8.decode d ≡ some dest
    pub http : is_http dest ≡ true
    pub joined : out ≡ dest ++ drop cut tail

  recover_bytes-some :
      (r : Routes) (tail out : Text) (max_l b : ℕ) (bytes : Bytes)
      → recover_bytes utf8 r tail max_l (b ∷ bytes) ≡ some out
      → (b ≡ 1)
        × (16 ≤ length bytes)
        × (recover_with utf8 r.route_keys (take 16 bytes) (drop 16 bytes) tail max_l ≡ some out)
  unfolding recover_bytes
  recover_bytes-some r tail out max_l b bytes e = ground (arith, e)

  recover_tail-some :
      (r : Routes) (tail out : Text)
      → recover_tail utf8 r tail ≡ some out
      → (bytes : Bytes) × (b64u_decode_lenient (take (letters_first tail) tail) ≡ some bytes)
        × (recover_bytes utf8 r tail (letters_first tail) bytes ≡ some out)
  unfolding recover_tail
  recover_tail-some r tail out e =
      elim (Option-cases (b64u_decode_lenient (take (letters_first tail) tail))) [
        | inl n ↦ absurd (ground (arith, e, n))
        | inr (bytes, f) ↦ (bytes, f, ground (arith, e, f))
      ]

  bytes-Recovered :
      (r : Routes) (tail out : Text) (bytes : Bytes)
      → b64u_decode_lenient (take (letters_first tail) tail) ≡ some bytes
      → recover_bytes utf8 r tail (letters_first tail) bytes ≡ some out
      → Recovered r tail out
  bytes-Recovered r tail out [] f e = unfold recover_bytes in absurd cc
  bytes-Recovered r tail out (b ∷ bytes) f e =
      let (one, long, w) = recover_bytes-some r tail out _ b bytes e in
      let iv = take 16 bytes in
      let ct = drop 16 bytes in
      let (key, held, m) = recover_with-Mints r.route_keys iv ct tail out _ w in
      let d = take m.size (cipher key iv 0 ct) in
      let same = mac_equals-eq key d iv (length-take 16 bytes long) m.mac in
      record {
        key = key;
        d = d;
        rest = drop m.size ct;
        dest = m.dest;
        cut = m.cut;
        held = held;
        front = f ∙ ap some (front_token key bytes b m.size one same);
        reads = m.reads;
        http = m.http;
        joined = m.joined;
      }

  -- What `recoverPath` gives starts with the destination of a token that a held key mints, and that
  -- token is the front of the tail's bytes.
  pub recover_path-Recovered :
      (r : Routes) (path out : Text)
      → recover_path utf8 r path ≡ some out
      → (rest : Text) × (after r.prefix path ≡ some rest) × Recovered r (before_query rest) out
  unfolding recover_path
  recover_path-Recovered r path out e = elim (Option-cases (after r.prefix path)) [
    | inl n ↦ absurd (ground (arith, e, n))
    | inr (rest, f) ↦
        let (bytes, g, h) = recover_tail-some r (before_query rest) out (ground (arith, e, f)) in
        (rest, f, bytes-Recovered r (before_query rest) out bytes g h)
  ]
