-- ===== src/Protocol/Resync.antt =====
-- common/Protocol.hpp, ProtocolDecoder::resynchronise.
pub mod Recovery
use aeb_node.Prelude.{
  ℕ, zero, suc, ◌+◌, ◌-◌, Bool, true, false, [], Option, none, some, length, drop, ltb, ◌==◌,
  if◌then◌else◌, ◌>>=◌,
}
use aeb_node.Protocol.{magic}
use aeb_node.Protocol.Octets.{Bytes, get_uint}
use aeb_node.Protocol.Decoder.{Decoder}

-- Does a magic number stand at offset `i`? `none` is a read outside of the buffer.
unfoldable pub magic_at : Bytes → ℕ → Option Bool
unfolding get_uint
magic_at buffer i = do m ← get_uint 4 (drop i buffer); some (m == magic)

-- The loop from offset `i`, with `left` offsets to try: the first that holds a magic number.
unfoldable pub find_magic : ℕ → ℕ → Bytes → Option (Option ℕ)
unfolding magic_at
find_magic zero i buffer = some none
find_magic (suc left) i buffer =
    let rest = find_magic left (i + 1) buffer in
    do hit ← magic_at buffer i; if hit then some (some i) else rest

-- What the loop's outcome does to the buffer.
unfoldable pub recovered : Decoder → Option ℕ → Option (Bool × Decoder)
recovered d (some i) = some (true, record { buffer = drop i d.buffer })
recovered d none = some (false, record { buffer = drop (length d.buffer - 3) d.buffer })

unfoldable pub resynchronise : Decoder → Option (Bool × Decoder)
unfolding find_magic recovered
resynchronise d =
    if ltb (length d.buffer) 4
    then some (false, record { buffer = [] })
    else do found ← find_magic (length d.buffer - 4) 1 d.buffer; recovered d found
