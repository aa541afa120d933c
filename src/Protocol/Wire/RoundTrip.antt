-- ===== src/Protocol/Wire/RoundTrip.antt =====
-- common/Protocol.hpp: the decoder on packets of the wire format, the encoder's among them.
use aeb_node.Prelude.{
  ℕ, zero, suc, ◌≤◌, ◌<◌, ◌≡◌, ◌≢◌, refl, sym, ap, ◌∙◌, [], ◌∷◌, ◌++◌, some, none, Option, false,
  length, drop, length-append, append-nil, drop-length-append, ltb, bit_and, arith, if-eq_of_false,
  >>=-eq_of_some,
}
use aeb_node.Types.{ScanFrame, IsFrame}
use aeb_node.Protocol.{DecodeStatus, ok, need_more_data}
use aeb_node.Protocol.Octets.{Bytes}
use aeb_node.Protocol.Decoder.{
  Decoder, Decoded, feed, sizes_unusable, flags_unknown, trailer_size, packet_size, read_points,
  decode_payload, decode,
}
use aeb_node.Protocol.Decoder.Bounds.{decode_total}
use aeb_node.Protocol.Decoder.Stable.{decode-feed}
use aeb_node.Protocol.Decoder.Unchanged.{decode_unchanged}
use aeb_node.Protocol.Wire.{Packet, IsPacket, wire, frame_of}
use aeb_node.Protocol.Encoder.{encode}
use aeb_node.Protocol.Wire.Encoded.{
  packet_of, truncated, encode-wire, packet_of-IsPacket, frame_of-packet_of,
}
use aeb_node.Protocol.Wire.Packets.{
  header_of, magic-wire, version-wire, read_header-wire, read_points-payload, drop_header-wire,
  length-wire,
}

known_mask : (flags : ℕ) → flags < 2 → bit_and flags 0xffff_fffe ≡ 0
known_mask zero h = refl
known_mask (suc zero) h = refl
known_mask (suc (suc f)) h = absurd (omega arith)

crc_mask : (flags : ℕ) → flags < 2 → bit_and flags 1 ≡ flags
crc_mask zero h = refl
crc_mask (suc zero) h = refl
crc_mask (suc (suc f)) h = absurd (omega arith)

module _ (k : Packet) (rest : Bytes) (v : IsPacket k) where
  sizes-wire : sizes_unusable (header_of k) ≡ false
  unfolding sizes_unusable
  sizes-wire = ground arith

  flags-wire : flags_unknown (header_of k) ≡ false
  unfolding flags_unknown
  flags-wire = rw (known_mask k.flags v.flags_known)

  packet_size-wire : packet_size (header_of k) ≡ length (wire k)
  unfolding packet_size trailer_size
  packet_size-wire = ground (arith, crc_mask k.flags v.flags_known, length-wire k rest v)

  wire_arrived : ltb (length (wire k ++ rest)) (packet_size (header_of k)) ≡ false
  wire_arrived = ground (arith, packet_size-wire, length-append (wire k) rest)

  wire_consumed : drop (packet_size (header_of k)) (wire k ++ rest) ≡ rest
  wire_consumed = rw packet_size-wire (drop-length-append (wire k) rest)

  header_arrived : ltb (length (wire k ++ rest)) 32 ≡ false
  header_arrived = ground (arith, length-wire k rest v, length-append (wire k) rest)

  decode_payload-wire :
      (out : ScanFrame)
      → decode_payload (record { buffer = wire k ++ rest }) out (header_of k)
        ≡ some (ok, record { buffer = rest }, frame_of k)
  unfolding decode_payload
  decode_payload-wire out = if-eq_of_false _ _ _ wire_arrived (
      >>=-eq_of_some (read_points (length k.records) _ k.point_stride _) _
        (read_points-payload k.point_stride k.records _ _ _ v.records_fit
          (drop_header-wire k rest v))
        (ap (λ b. some (ok, record { buffer = b }, frame_of k)) wire_consumed))

  -- `decode` takes every packet of the wire format off the front of its buffer.
  pub decode-wire :
      (out : ScanFrame)
      → decode (record { buffer = wire k ++ rest }) out
        ≡ some (ok, record { buffer = rest }, frame_of k)
  unfolding decode
  decode-wire out = if-eq_of_false _ _ _ header_arrived (
      >>=-eq_of_some _ _ (magic-wire k rest v) (
        >>=-eq_of_some _ _ (version-wire k rest v) (
          >>=-eq_of_some _ _ (read_header-wire k rest v) (
            if-eq_of_false _ _ _ sizes-wire (
              if-eq_of_false _ _ _ flags-wire
                (if-eq_of_false _ _ _ (few v.count_fits) (decode_payload-wire out)))))))
    where
      few : length k.records ≤ 65536 → ltb 65536 (length k.records) ≡ false
      few h = ground arith

DecodeStatus-discrete : Discrete DecodeStatus
DecodeStatus-discrete = hlevel

-- A verdict on a proper part of a packet would leave octets of the packet behind.
no_early_verdict :
    (k : Packet) (d d' : Decoder) (back : Bytes) (x : ℕ) (out out' : ScanFrame) (s : DecodeStatus)
    → IsPacket k
    → wire k ≡ d.buffer ++ (x ∷ back)
    → decode d out ≡ some (s, d', out')
    → s ≢ need_more_data
    → ⊥
unfolding feed
no_early_verdict k d d' back x out out' s v e r ne =
    omega (arith, ap kept agree, length-append d'.buffer (x ∷ back))
  where
    kept : Option Decoded → ℕ
    kept none = 0
    kept (some v) = length v.1.buffer

    agree :
        ◌≡◌ {A = Option Decoded}
          (some (ok, record { buffer = [] }, frame_of k))
          (some (s, feed d' (x ∷ back), out'))
    agree =
        sym (decode-wire k [] v out)
        ∙ ap (λ b. decode (record { buffer = b }) out) (append-nil (wire k) ∙ e)
        ∙ decode-feed (x ∷ back) d d' out out' s r ne

-- While a packet has not arrived whole, `decode` asks for more and changes nothing.
pub decode_incomplete :
    (k : Packet) (front back : Bytes) (x : ℕ) (out : ScanFrame)
    → IsPacket k
    → wire k ≡ front ++ (x ∷ back)
    → decode (record { buffer = front }) out ≡ some (need_more_data, record { buffer = front }, out)
decode_incomplete k front back x out v e =
    let d : Decoder = record { buffer = front } in
    let ((s, d', out'), r) = decode_total d out in
    elim (DecodeStatus-discrete s need_more_data) [
      | yes p ↦
          let (kept, untouched) = decode_unchanged d out d' out' s r (λ q. cc) in
          cc (r, p, kept, untouched)
      | no ne ↦ absurd (no_early_verdict k d d' back x out out' s v e r ne)
    ]

-- `decode` reads back the frame that `encode` wrote, up to the limit on points, and leaves in the
-- buffer whatever follows the packet.
pub decode-encode :
    (f out : ScanFrame) (rest : Bytes)
    → IsFrame f
    → decode (record { buffer = encode f ++ rest }) out
      ≡ some (ok, record { buffer = rest }, truncated f)
decode-encode f out rest h =
    ap (λ xs. decode (record { buffer = xs ++ rest }) out) (encode-wire f)
    ∙ decode-wire (packet_of f) rest (packet_of-IsPacket f h) out
    ∙ ap (λ g. some (ok, record { buffer = rest }, g)) (frame_of-packet_of f)
