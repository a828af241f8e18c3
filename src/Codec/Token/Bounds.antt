-- ===== src/Codec/Token/Bounds.antt =====
-- A token is made of bytes.

use zeolite.Prelude.{
  ℕ, zero, suc, ◌+◌, ◌/◌, ◌%◌, [], ◌∷◌, arith, or_else, get_elem?, All, All-append,
}
use zeolite.Codec.{Bytes, IsByte}
use zeolite.Codec.Siphash.{le_bytes}
use zeolite.Codec.Token.{keystream_block, dest_mac, iv_of, stream_byte, cipher, sealed}
use zeolite.Codec.Token.Xor.{bit_xor-IsByte}

le_bytes-IsByte : (count v : ℕ) → All IsByte (le_bytes count v)
unfolding le_bytes
le_bytes-IsByte zero v = tt
le_bytes-IsByte (suc count) v = (omega arith, le_bytes-IsByte count (v / 256))

get_elem-IsByte :
    (bytes : Bytes) (i : ℕ) → All IsByte bytes → IsByte (or_else (get_elem? bytes i) 0)
get_elem-IsByte [] i h = omega arith
get_elem-IsByte (b ∷ bytes) zero (hb, h) = hb
get_elem-IsByte (b ∷ bytes) (suc i) (hb, h) = get_elem-IsByte bytes i h

stream_byte-IsByte :
    (key iv : Bytes) (i : ℕ) → IsByte (stream_byte (keystream_block key iv (i / 8)) i)
unfolding stream_byte keystream_block
stream_byte-IsByte key iv i = get_elem-IsByte _ (i % 8) (le_bytes-IsByte 8 _)

cipher-IsByte : (key iv : Bytes) (i : ℕ) (d : Bytes) → All IsByte d → All IsByte (cipher key iv i d)
unfolding cipher
cipher-IsByte key iv i [] h = tt
cipher-IsByte key iv i (b ∷ d) (hb, h) =
    (bit_xor-IsByte b _ hb (stream_byte-IsByte key iv i), cipher-IsByte key iv (i + 1) d h)

dest_mac-IsByte : (key d : Bytes) (dom : ℕ) → All IsByte (dest_mac key d dom)
unfolding dest_mac
dest_mac-IsByte key d dom = le_bytes-IsByte 8 _

pub sealed-IsByte : (key d : Bytes) → All IsByte d → All IsByte (sealed key d)
unfolding iv_of
sealed-IsByte key d h = (
  omega arith,
  All-append IsByte (iv_of key d) _
      (All-append IsByte (dest_mac key d 1) _ (dest_mac-IsByte key d 1) (dest_mac-IsByte key d 2))
      (cipher-IsByte key (iv_of key d) 0 d h),
)
