-- ===== src/Protocol/Wire/Packets.antt =====
-- Packets of the wire format, and what the octet helpers of common/Protocol.hpp read from them.
use native.Mathlib.Nat.{mod-eq_of_lt}
use aeb_node.Prelude.{
  ℕ, ◌+◌, ◌*◌, ◌≡◌, refl, sym, ap, ◌∙◌, List, [], ◌∷◌, ◌++◌, map, some, length, drop, get_elem?,
  All, length-append, append_assoc, drop-add, drop-length-append, get_elem?-drop, arith,
  >>=-eq_of_some,
}
use aeb_node.Types.{IsPoint}
use aeb_node.Protocol.{magic, version}
use aeb_node.Protocol.Octets.{Bytes, get_uint, get_float32}
use aeb_node.Protocol.Octets.Laws.{get_uint-octets}
use aeb_node.Protocol.Decoder.{Header, read_header, read_point, read_points}
use aeb_node.Protocol.Wire.{PointRecord, Packet, IsPacket, record_octets, payload, wire}

-- The header that stands on the wire.
abbrev pub header_of : Packet → Header
header_of k = record {
  header_size = 30 + length k.header_tail;
  flags = k.flags;
  sequence = k.sequence;
  timestamp_us = k.timestamp_us;
  point_count = length k.records;
  point_stride = k.point_stride;
}

module _ (k : Packet) (rest : Bytes) (v : IsPacket k) where
  pub magic-wire : get_uint 4 (wire k ++ rest) ≡ some magic
  unfolding wire
  magic-wire = get_uint-octets 4 magic _ (omega arith) (omega arith)

  pub version-wire : get_uint 2 (drop 4 (wire k ++ rest)) ≡ some version
  unfolding wire
  version-wire = get_uint-octets 2 version _ (omega arith) (omega arith)

  pub read_header-wire : read_header (wire k ++ rest) ≡ some (header_of k)
  unfolding read_header wire
  read_header-wire =
      >>=-eq_of_some _ _
        (get_uint-octets 2 (30 + length k.header_tail) _ (omega arith) (omega arith))
        (>>=-eq_of_some _ _ (get_uint-octets 4 k.flags _ (omega arith) (omega arith)) (
          >>=-eq_of_some _ _ (get_uint-octets 4 k.sequence _ (omega arith) v.sequence_fits) (
            >>=-eq_of_some _ _ (get_uint-octets 8 k.timestamp_us _ (omega arith) v.timestamp_fits) (
              >>=-eq_of_some _ _
                (get_uint-octets 4 (length k.records) _ (omega arith) (omega arith))
                (>>=-eq_of_some _ _ (get_uint-octets 2 k.point_stride _ (omega arith) (omega arith))
                  refl)))))

-- A record at offset `p`.
read_point-record :
    (r : PointRecord) (buffer after : Bytes) (p : ℕ)
    → IsPoint r.point
    → drop p buffer ≡ record_octets r ++ after
    → read_point buffer p ≡ some r.point
unfolding read_point get_float32
read_point-record r buffer after p v e =
    >>=-eq_of_some (get_float32 (drop p buffer)) _
      (ap get_float32 e
        ∙ get_uint-octets 4 r.point.angle_deg (drop 4 (record_octets r ++ after)) (omega arith) v.0)
      (>>=-eq_of_some (get_float32 (drop (p + 4) buffer)) _
        (ap get_float32 (drop-add p 4 buffer ∙ ap (drop 4) e)
          ∙ get_uint-octets 4 r.point.distance_mm (drop 8 (record_octets r ++ after)) (omega arith)
              v.1)
        (>>=-eq_of_some (get_elem? buffer (p + 8)) _
          (sym (get_elem?-drop p 8 buffer)
            ∙ ap (λ xs. get_elem? xs 8) e
            ∙ ap some (mod-eq_of_lt v.2))
          refl))

length-record : (r : PointRecord) → length (record_octets r) ≡ 9 + length r.tail
length-record r = omega arith

pub length-payload :
    (stride : ℕ) (rs : List PointRecord)
    → All (λ r. (9 + length r.tail ≡ stride) × IsPoint r.point) rs
    → length (payload rs) ≡ length rs * stride
length-payload stride [] h = omega arith
length-payload stride (r ∷ rs) h = omega (
  arith,
  length-append (record_octets r) (payload rs),
  length-record r,
  length-payload stride rs h.1,
)

-- The loop over the records reads the points of a payload at offset `p`.
pub read_points-payload :
    (stride : ℕ) (rs : List PointRecord) (buffer after : Bytes) (p : ℕ)
    → All (λ r. (9 + length r.tail ≡ stride) × IsPoint r.point) rs
    → drop p buffer ≡ payload rs ++ after
    → read_points (length rs) p stride buffer ≡ some (map (λ r. r.point) rs)
unfolding read_points
read_points-payload stride [] buffer after p h e = refl
read_points-payload stride (r ∷ rs) buffer after p h e =
    >>=-eq_of_some (read_point buffer p) _
      (read_point-record r buffer (payload rs ++ after) p h.0.1
        (e ∙ append_assoc (record_octets r) (payload rs) after))
      (>>=-eq_of_some (read_points (length rs) (p + stride) stride buffer) _
        (read_points-payload stride rs buffer after (p + stride) h.1 next) refl)
  where
    next : drop (p + stride) buffer ≡ payload rs ++ after
    next =
        drop-add p stride buffer
        ∙ ap (drop stride) (e ∙ append_assoc (record_octets r) (payload rs) after)
        ∙ ap (λ n. drop n (record_octets r ++ (payload rs ++ after)))
            (sym (length-record r ∙ h.0.0))
        ∙ drop-length-append (record_octets r) (payload rs ++ after)

module _ (k : Packet) (rest : Bytes) (v : IsPacket k) where
  pub drop_header-wire :
      drop (30 + length k.header_tail) (wire k ++ rest) ≡ payload k.records ++ (k.trailer ++ rest)
  unfolding wire
  drop_header-wire =
      drop-add 30 (length k.header_tail) (wire k ++ rest)
      ∙ ap (drop (length k.header_tail))
          (append_assoc k.header_tail (payload k.records ++ k.trailer) rest)
      ∙ drop-length-append k.header_tail ((payload k.records ++ k.trailer) ++ rest)
      ∙ append_assoc (payload k.records) k.trailer rest

  pub length-wire :
      length (wire k) ≡ 30 + length k.header_tail + length k.records * k.point_stride + 4 * k.flags
  unfolding wire
  length-wire = omega (
    arith,
    length-append k.header_tail (payload k.records ++ k.trailer),
    length-append (payload k.records) k.trailer,
    length-payload k.point_stride k.records v.records_fit,
    v.trailer_fits,
  )
