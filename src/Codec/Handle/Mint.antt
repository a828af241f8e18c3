-- ===== src/Codec/Handle/Mint.antt =====
-- A minted handle names its origin and its root until it expires, and is known as expired after that.
use zeolite.Prelude.{
  ℕ, ◌+◌, ◌≡◌, true, false, Option, none, some, List, ◌∷◌, ◌++◌, leb, All, if◌then◌else◌, arith,
}
use zeolite.Text.{Text, txt, starts_with}
use zeolite.Numbers.{print}
use zeolite.Url.{Url}
use zeolite.Codec.{Bytes, IsByte}
use zeolite.Codec.Base64.{b64u_encode, b64u_decode}
use zeolite.Codec.Base64.RoundTrip.{b64u_decode-b64u_encode}
use zeolite.Codec.Token.{Utf8, keyed_token, keyed_payload}
use zeolite.Codec.Token.Bounds.{sealed-IsByte}
use zeolite.Codec.Token.Opaque.{keyed_payload-keyed_token}
use zeolite.Codec.Route.{Routes}
use zeolite.Codec.Handle.{
  line_end, navh_tag, NavHandleInfo, Attempt, found, mintable_dest, bound_root, handle_payload,
  encode_nav_handle, read_payload, try_key, try_keys, decode_nav_handle_payload,
  decode_nav_handle_info, decode_expired_nav_handle,
}
use zeolite.Codec.Fields.{Lacks}
use zeolite.Codec.Handle.Reads.{Bindable, read_payload-found}

module _ (utf8 : Utf8) (parse_url : Text → Option Url) (number : Text → Option ℕ) where
  try_key-found :
      (key bytes : Bytes) (rest : Text) (a : Attempt)
      → keyed_payload utf8 (some key) bytes ≡ some (navh_tag ++ rest)
      → read_payload utf8 parse_url number rest ≡ a
      → try_key utf8 parse_url number bytes key ≡ a
  unfolding try_key starts_with
  try_key-found key bytes rest a e f = ground (arith, e, f)

  try_keys-found :
      (key bytes : Bytes) (older : List Bytes) (info : NavHandleInfo)
      → try_key utf8 parse_url number bytes key ≡ found info
      → try_keys utf8 parse_url number bytes (key ∷ older) ≡ some info
  unfolding try_keys
  try_keys-found key bytes older info e = ground (arith, e)

  payload-found :
      (r : Routes) (token : Text) (bytes : Bytes) (info : NavHandleInfo)
      → b64u_decode token ≡ some bytes
      → try_keys utf8 parse_url number bytes r.route_keys ≡ some info
      → decode_nav_handle_payload utf8 parse_url number r token ≡ some info
  unfolding decode_nav_handle_payload
  payload-found r token bytes info e f = ground (arith, e, f)

  -- At a time, a handle that decodes is live or it is known as expired.
  unfoldable pub Dated : Routes → Text → NavHandleInfo → ℕ → Type 0
  Dated r token info later =
      (decode_nav_handle_info utf8 parse_url number r later false token
        ≡ (if leb later info.expires then some info else none))
      × (decode_expired_nav_handle utf8 parse_url number r later token
          ≡ (if leb later info.expires then none else some (info.destination, info.root_client_id)))

  found-Dated :
      (r : Routes) (token : Text) (info : NavHandleInfo) (later : ℕ)
      → decode_nav_handle_payload utf8 parse_url number r token ≡ some info
      → Dated r token info later
  unfolding Dated decode_nav_handle_info decode_expired_nav_handle
  found-Dated r token info later e = (ground (arith, e), ground (arith, e))

  keyed_token-IsByte : (key : Bytes) (dest : Text) → All IsByte (keyed_token utf8 key dest)
  unfolding keyed_token
  keyed_token-IsByte key dest = sealed-IsByte key (utf8.encode dest) (utf8.encode-IsByte dest)

  minted :
      (r : Routes) (key : Bytes) (now ttl_ms : ℕ) (nonce dest : Text) (root : Option Text) (u : Url)
      → r.route_key ≡ some key
      → parse_url dest ≡ some u
      → mintable_dest utf8 parse_url number dest ≡ true
      → encode_nav_handle utf8 parse_url number r now ttl_ms nonce dest root
        ≡ some (
            b64u_encode (
              keyed_token utf8 key (
                handle_payload utf8 parse_url number
                  (now + ttl_ms)
                  u.origin
                  nonce
                  (bound_root utf8 parse_url number root))))
  unfolding encode_nav_handle
  minted r key now ttl_ms nonce dest root u k p m = ground (arith, k, p, m)

  -- A minted handle decodes, as long as it has not expired, to the origin of its destination and the
  -- root that was bound, and from then on it is known as expired with the same origin and root: if the key
  -- is the newest, the origin is itself mintable and one line that is no root field, the nonce is one
  -- line, UTF-8 carries the payload and the root, and `Number` reads what `String` writes.
  pub encode_nav_handle-Dated :
      (r : Routes) (key : Bytes) (older : List Bytes) (now ttl_ms later : ℕ) (nonce dest : Text)
      (root bound : Option Text) (u : Url)
      → r.route_key ≡ some key
      → r.route_keys ≡ key ∷ older
      → parse_url dest ≡ some u
      → mintable_dest utf8 parse_url number dest ≡ true
      → mintable_dest utf8 parse_url number u.origin ≡ true
      → Lacks line_end u.origin
      → starts_with u.origin (txt "root:") ≡ false
      → Lacks line_end nonce
      → bound_root utf8 parse_url number root ≡ bound
      → Bindable utf8 bound
      → number (print (now + ttl_ms)) ≡ some (now + ttl_ms)
      → let payload = handle_payload utf8 parse_url number (now + ttl_ms) u.origin nonce bound in
        utf8.decode (utf8.encode payload) ≡ some payload
        → (token : Text) × (encode_nav_handle utf8 parse_url number r now ttl_ms nonce dest root
            ≡ some token)
          × Dated r token
              (record { destination = u.origin; root_client_id = bound; expires = now + ttl_ms })
              later
  unfolding handle_payload
  encode_nav_handle-Dated r key older now ttl_ms later nonce dest root bound u k ks p m o line plain
        nonce_ok b bind n utf =
      let payload = handle_payload utf8 parse_url number (now + ttl_ms) u.origin nonce bound in
      let info : NavHandleInfo = record {
        destination = u.origin;
        root_client_id = bound;
        expires = now + ttl_ms;
      } in
      let opened = keyed_payload-keyed_token utf8 key payload utf in
      let read =
        read_payload-found utf8 parse_url number u.origin nonce line plain nonce_ok o (now + ttl_ms)
          bound bind n in
      let tried = try_key-found key (keyed_token utf8 key payload) _ (found info) opened read in
      (
        b64u_encode (keyed_token utf8 key payload),
        rw b at (minted r key now ttl_ms nonce dest root u k p m),
        found-Dated r _ info later (
            payload-found r _ (keyed_token utf8 key payload) info
              (b64u_decode-b64u_encode _ (keyed_token-IsByte key payload))
              (rw ks (try_keys-found key (keyed_token utf8 key payload) older info tried))),
      )
