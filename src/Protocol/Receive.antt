-- ===== src/Protocol/Receive.antt =====
-- The loop that the comment on ProtocolDecoder prescribes to its users (common/Protocol.hpp): feed what a
-- read has brought, then decode until a frame is incomplete.
pub mod Chunks
use aeb_node.Prelude.{
  ℕ, zero, suc, Bool, true, false, List, [], ◌∷◌, ◌++◌, Option, some, none, length, if◌then◌else◌,
  ◌>>=◌,
}
use aeb_node.Types.{ScanFrame, default_frame}
use aeb_node.Protocol.{
  DecodeStatus, ok, need_more_data, bad_magic, bad_version, bad_header, too_large,
}
use aeb_node.Protocol.Octets.{Bytes}
use aeb_node.Protocol.Decoder.{Decoder, feed, decode}

abbrev is_ok : DecodeStatus → Bool
is_ok ok = true
is_ok s = false

-- The frames of the buffer, and what is left of it; `none`: the fuel ends.
unfoldable pub drain : ℕ → Decoder → ScanFrame → Option (List ScanFrame × Decoder)
drain zero d frame = none
drain (suc n) d frame = do
  (s, d', frame') ← decode d frame
  let later = drain n d' frame' in
      (if is_ok s then later >>= (λ (frames, d''). some (frame' ∷ frames, d'')) else some ([], d'))

-- The frames that a series of reads brings.
unfoldable pub receive : List Bytes → Decoder → Option (List ScanFrame × Decoder)
receive [] d = some ([], d)
receive (chunk ∷ chunks) d =
    let fed = feed d chunk in
    do
      (frames, d') ← drain (suc (length fed.buffer)) fed default_frame
      (more, d'') ← receive chunks d'
      some (frames ++ more, d'')
