-- ===== src/Protocol/Octets.antt =====
-- common/Protocol.hpp, namespace detail: integers and floats as little-endian octets.
pub mod Laws
use aeb_node.Prelude.{
  ℕ, zero, suc, ◌+◌, ◌*◌, ◌/◌, ◌%◌, ◌^◌, List, [], ◌∷◌, ◌++◌, Option, none, some, bit_or, drop,
}
use aeb_node.Float32.{Float32}

abbrev pub Bytes : Type 0
Bytes = List ℕ

-- The loop of putUint, with `left` rounds to go at index `i`.
put_octets : ℕ → ℕ → Bytes → ℕ → Bytes
put_octets zero i out value = out
put_octets (suc left) i out value =
    put_octets left (i + 1) (out ++ (value / 2 ^ (8 * i) % 256 ∷ [])) value

-- `putUint<bytes>(out, value)`
unfoldable pub put_uint : ℕ → Bytes → ℕ → Bytes
unfolding put_octets
put_uint bytes out value = put_octets bytes 0 out value

-- `putFloat32(out, value)`: `memcpy` hands over the bit pattern, which the model keeps anyway.
unfoldable pub put_float32 : Bytes → Float32 → Bytes
put_float32 out value = put_uint 4 out value

-- The loop of getUint. `none` is a read past the end of the buffer.
get_octets : ℕ → ℕ → Bytes → ℕ → Option ℕ
get_octets zero i data_at value = some value
get_octets (suc left) i [] value = none
get_octets (suc left) i (b ∷ data_at) value =
    get_octets left (i + 1) data_at (bit_or value (b * 2 ^ (8 * i) % 2 ^ 64))

-- `getUint<bytes>(data)`, with `data` the part of the buffer from the pointer on.
unfoldable pub get_uint : ℕ → Bytes → Option ℕ
unfolding get_octets
get_uint bytes data_at = get_octets bytes 0 data_at 0

-- `getFloat32(data)`
unfoldable pub get_float32 : Bytes → Option Float32
get_float32 data_at = get_uint 4 data_at
