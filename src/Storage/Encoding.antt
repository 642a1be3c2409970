-- ===== src/Storage/Encoding.antt =====
-- src/storage/encoding.h: a `uint64_t` as eight bytes, the highest first.
pub mod RoundTrip
pub mod Order
use openevent.Common.{
  ℕ, zero, suc, ◌+◌, ◌*◌, ◌/◌, ◌%◌, ◌^◌, List, [], ◌∷◌, Bytes, length, ◌==◌, if◌then◌else◌, u64_mod,
}

-- The loop `for (int i = 7; i >= 0; --i)`, with the number of bytes that are left.
unfoldable pub encode_loop : ℕ → ℕ → Bytes
encode_loop zero value = []
encode_loop (suc i) value = (value / 2 ^ (i * 8) % 256) ∷ encode_loop i value

unfoldable pub encode_uint64 : ℕ → Bytes
unfolding encode_loop
encode_uint64 value = encode_loop 8 value

-- `out = (out << 8) | ch`: the shift leaves the low byte clear, and `ch` is a byte.
unfoldable pub decode_loop : ℕ → Bytes → ℕ
decode_loop out [] = out
decode_loop out (ch ∷ rest) = decode_loop (out * 256 % u64_mod + ch) rest

unfoldable pub decode_uint64 : Bytes → ℕ
unfolding decode_loop
decode_uint64 value = if length value == 8 then decode_loop 0 value else 0
