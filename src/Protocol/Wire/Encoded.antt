-- ===== src/Protocol/Wire/Encoded.antt =====
-- common/Protocol.hpp, ProtocolEncoder: what `encode` writes, against the wire format.
use aeb_node.Prelude.{
  ℕ, zero, suc, ◌+◌, ◌*◌, ◌%◌, ◌^◌, ◌≤◌, ◌≡◌, refl, sym, ap, ◌∙◌, List, [], ◌∷◌, ◌++◌, map, length,
  take, All, min, length-map, length-take, append-nil, append_assoc, ltb, if◌then◌else◌, arith,
}
use aeb_node.Types.{ScanPoint, ScanFrame, IsPoint, IsFrame}
use aeb_node.Protocol.{magic, version, header_size_v1, point_stride_v1, max_points_per_frame}
use aeb_node.Protocol.Octets.{Bytes}
use aeb_node.Protocol.Octets.Laws.{octets, put_uint-octets}
use aeb_node.Protocol.Encoder.{point_count, put_point, put_points, put_header, encode, encoded_size}
use aeb_node.Protocol.Wire.{
  PointRecord, Packet, IsPacket, record_octets, payload, body, wire, frame_of,
}

-- A version 1 record ends in one reserved octet.
abbrev v1_record : ScanPoint → PointRecord
v1_record p = record { point = p; tail = octets 1 0 }

-- A version 1 packet carries the points up to the limit, no extras and no trailer.
abbrev pub packet_of : ScanFrame → Packet
packet_of f = record {
  flags = 0;
  sequence = f.sequence;
  timestamp_us = f.timestamp_us;
  point_stride = point_stride_v1;
  header_tail = octets 2 0;
  records = map v1_record (take max_points_per_frame f.points);
  trailer = [];
}

-- The frame that arrives: points past the limit are cut off.
abbrev pub truncated : ScanFrame → ScanFrame
truncated f = record f { points = take max_points_per_frame f.points }

put_point-record :
    (out : Bytes) (p : ScanPoint) → put_point out p ≡ out ++ record_octets (v1_record p)
unfolding put_point
put_point-record out p = simp (put_uint-octets, append_assoc)

put_points-payload :
    (n : ℕ) (points : List ScanPoint) (out : Bytes)
    → put_points n points out ≡ out ++ payload (map v1_record (take n points))
unfolding put_points
put_points-payload zero points out = sym (append-nil out)
put_points-payload (suc n) [] out = sym (append-nil out)
put_points-payload (suc n) (p ∷ points) out =
    put_points-payload n points (put_point out p)
    ∙ ap (λ xs. xs ++ payload (map v1_record (take n points))) (put_point-record out p)
    ∙ append_assoc out (record_octets (v1_record p)) _

clamped : (n : ℕ) → (if ltb 65536 n then 65536 else n % 2 ^ 32) ≡ min 65536 n
clamped n = ground arith

take-length-take {ℓ} : {A : Type ℓ} (n : ℕ) (xs : List A) → take (length (take n xs)) xs ≡ take n xs
take-length-take zero xs = refl
take-length-take (suc n) [] = refl
take-length-take (suc n) (x ∷ xs) = ap (λ ys. x ∷ ys) (take-length-take n xs)

point_count-take : (f : ScanFrame) → point_count f ≡ length (take max_points_per_frame f.points)
unfolding point_count
point_count-take f = clamped (length f.points) ∙ sym (length-take 65536 f.points)

point_count-records : (f : ScanFrame) → point_count f ≡ length (packet_of f).records
point_count-records f = point_count-take f ∙ sym (length-map _ v1_record)

-- A version 1 packet with its count and what follows the header left open.
abbrev v1_packet : ScanFrame → ℕ → Bytes → Bytes
v1_packet f count rest =
    octets 4 magic
    ++ (octets 2 version
        ++ (octets 2 header_size_v1
            ++ (octets 4 0
                ++ (octets 4 f.sequence
                    ++ (octets 8 f.timestamp_us
                        ++ (octets 4 count
                            ++ (octets 2 point_stride_v1 ++ (octets 2 0 ++ rest))))))))

put_header-octets : (f : ScanFrame) (count : ℕ) → put_header f count [] ≡ v1_packet f count []
unfolding put_header
put_header-octets f count = simp put_uint-octets

-- What `encode` writes is the packet of the frame.
pub encode-wire : (f : ScanFrame) → encode f ≡ wire (packet_of f)
unfolding encode wire
encode-wire f =
    put_points-payload (point_count f) f.points _
    ∙ ap (λ ps. put_header f (point_count f) [] ++ payload (map v1_record ps))
        (ap (λ n. take n f.points) (point_count-take f)
          ∙ take-length-take max_points_per_frame f.points)
    ∙ ap (λ xs. xs ++ points) (put_header-octets f (point_count f))
    ∙ ap (λ n. v1_packet f n points) (point_count-records f)
    ∙ ap (v1_packet f (length (packet_of f).records)) (sym (append-nil points))
  where
    points : Bytes
    points = payload (packet_of f).records

v1_records_fit :
    (ps : List ScanPoint)
    → All IsPoint ps
    → All (λ r. (9 + length r.tail ≡ 10) × IsPoint r.point) (map v1_record ps)
v1_records_fit [] h = tt
v1_records_fit (p ∷ ps) h = ((refl, h.0), v1_records_fit ps h.1)

All-take {ℓ κ} : {A : Type ℓ} (P : A → Type κ) (n : ℕ) (xs : List A) → All P xs → All P (take n xs)
All-take P zero xs h = tt
All-take P (suc n) [] h = tt
All-take P (suc n) (x ∷ xs) h = (h.0, All-take P n xs h.1)

few_records : (f : ScanFrame) → length (packet_of f).records ≤ max_points_per_frame
few_records f =
    omega (arith, length-map (take 65536 f.points) v1_record, length-take 65536 f.points)

pub packet_of-IsPacket : (f : ScanFrame) → IsFrame f → IsPacket (packet_of f)
packet_of-IsPacket f h = record {
  flags_known = omega arith;
  sequence_fits = h.0;
  timestamp_fits = h.1;
  stride_low = omega arith;
  stride_high = omega arith;
  header_low = omega arith;
  header_high = omega arith;
  count_fits = few_records f;
  trailer_fits = refl;
  records_fit =
      v1_records_fit (take max_points_per_frame f.points)
        (All-take IsPoint max_points_per_frame f.points h.2);
}

points_of_records : (ps : List ScanPoint) → map (λ r. r.point) (map v1_record ps) ≡ ps
points_of_records [] = refl
points_of_records (p ∷ ps) = ap (λ qs. p ∷ qs) (points_of_records ps)

pub frame_of-packet_of : (f : ScanFrame) → frame_of (packet_of f) ≡ truncated f
frame_of-packet_of f =
    ap (λ ps. record f { points = ps }) (points_of_records (take max_points_per_frame f.points))

length-v1_payload : (ps : List ScanPoint) → length (payload (map v1_record ps)) ≡ 10 * length ps
length-v1_payload [] = refl
length-v1_payload (p ∷ ps) = omega (arith, length-v1_payload ps)

encoded_size-count : (f : ScanFrame) → encoded_size f ≡ 32 + point_count f * 10
unfolding encoded_size
encoded_size-count f = refl

length-packet : (k : Packet) → length (wire k) ≡ 30 + length (body k)
unfolding wire
length-packet k = omega arith

-- `encodedSize` is the exact number of octets that `encode` writes, and it is at most 655392.
pub length-encode :
    (f : ScanFrame) → (length (encode f) ≡ encoded_size f) × (encoded_size f ≤ 655392)
length-encode f = omega (
  arith,
  ap length (encode-wire f),
  length-packet (packet_of f),
  ap length (append-nil (payload (packet_of f).records)),
  length-v1_payload (take max_points_per_frame f.points),
  encoded_size-count f,
  point_count-records f,
  few_records f,
  length-map (take max_points_per_frame f.points) v1_record,
)

pub length-encode_pos : (f : ScanFrame) → 32 ≤ length (encode f)
length-encode_pos f = omega (arith, length-encode f, encoded_size-count f)

-- Packets one after the other.
abbrev pub encodings : List ScanFrame → Bytes
encodings [] = []
encodings (f ∷ fs) = encode f ++ encodings fs
