-- ===== src/Protocol/Encoder.antt =====
-- common/Protocol.hpp, class ProtocolEncoder.
use aeb_node.Prelude.{ℕ, zero, suc, ◌+◌, ◌*◌, ◌%◌, ◌^◌, List, [], ◌∷◌, length, ltb, if◌then◌else◌}
use aeb_node.Types.{ScanPoint, ScanFrame}
use aeb_node.Protocol.{magic, version, header_size_v1, point_stride_v1, max_points_per_frame}
use aeb_node.Protocol.Octets.{Bytes, put_uint, put_float32}

-- `pointCount(frame)`, a `std::uint32_t`
unfoldable pub point_count : ScanFrame → ℕ
point_count f =
    let n = length f.points in
    if ltb max_points_per_frame n then max_points_per_frame else n % 2 ^ 32

-- One round of the loop over the points.
unfoldable pub put_point : Bytes → ScanPoint → Bytes
unfolding put_float32
put_point out p =
    put_uint 1 (put_uint 1 (put_float32 (put_float32 out p.angle_deg) p.distance_mm) p.quality) 0

-- `for (i = 0; i < count; ++i)` over `frame.points[i]`; the list is what stands from `i` on. The
-- second clause is an index past the end, which `point_count` rules out.
unfoldable pub put_points : ℕ → List ScanPoint → Bytes → Bytes
unfolding put_point
put_points zero points out = out
put_points (suc left) [] out = out
put_points (suc left) (p ∷ points) out = put_points left points (put_point out p)

-- The header of a packet with `count` points.
unfoldable pub put_header : ScanFrame → ℕ → Bytes → Bytes
put_header f count out =
    let out = put_uint 4 out magic in
    let out = put_uint 2 out version in
    let out = put_uint 2 out header_size_v1 in
    let out = put_uint 4 out 0 in
    let out = put_uint 4 out f.sequence in
    let out = put_uint 8 out f.timestamp_us in
    let out = put_uint 4 out count in let out = put_uint 2 out point_stride_v1 in put_uint 2 out 0

-- `encode(frame, out)` clears `out` first, so the buffer is its result alone.
unfoldable pub encode : ScanFrame → Bytes
unfolding point_count put_points put_header
encode f = let count = point_count f in put_points count f.points (put_header f count [])

-- `encodedSize(frame)`
unfoldable pub encoded_size : ScanFrame → ℕ
unfolding point_count
encoded_size f = header_size_v1 + point_count f * point_stride_v1
