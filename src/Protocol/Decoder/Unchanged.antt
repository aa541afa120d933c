-- ===== src/Protocol/Decoder/Unchanged.antt =====
-- common/Protocol.hpp, ProtocolDecoder::decode: the calls that yield no frame.
use aeb_node.Prelude.{
  ℕ, ◌≡◌, ◌≢◌, Bool, true, false, Option, some, none, length, drop, ltb, not, ◌==◌, ◌>>=◌,
  if◌then◌else◌,
}
use aeb_node.Types.{ScanFrame}
use aeb_node.Protocol.{
  DecodeStatus, ok, need_more_data, bad_magic, bad_version, bad_header, too_large, magic, version,
  max_points_per_frame,
}
use aeb_node.Protocol.Octets.{get_uint}
use aeb_node.Protocol.Decoder.{
  Decoder, Decoded, Header, with_points, read_header, read_points, sizes_unusable, flags_unknown,
  packet_size, decode_payload, decode_header, decode_magic, decode,
}

module _ (d : Decoder) (out : ScanFrame) where
  abbrev Keeps : Option Decoded → Type 0
  Keeps m =
      (s : DecodeStatus) (d' : Decoder) (out' : ScanFrame)
      → m ≡ some (s, d', out')
      → s ≢ ok
      → (d' ≡ d) × (out' ≡ out)

  refused-Keeps : (s : DecodeStatus) → Keeps (some (s, d, out))
  refused-Keeps s s' d' out' e h = (cc, cc)

  if-Keeps :
      (b : Bool) (s : DecodeStatus) (y : Option Decoded)
      → Keeps y
      → Keeps (if b then some (s, d, out) else y)
  if-Keeps true s y g = refused-Keeps s
  if-Keeps false s y g = g

  >>=-Keeps {ℓ} :
      {A : Type ℓ} (m : Option A) (f : A → Option Decoded)
      → ((a : A) → Keeps (f a))
      → Keeps (m >>= f)
  >>=-Keeps none f g = λ s d' out' e h. absurd (cc)
  >>=-Keeps (some a) f g = g a

  ok-Keeps : (d₁ : Decoder) (out₁ : ScanFrame) → Keeps (some (ok, d₁, out₁))
  ok-Keeps d₁ out₁ s d' out' e h = absurd (h (cc))

  decode_payload-Keeps : (h : Header) → Keeps (decode_payload d out h)
  unfolding decode_payload
  decode_payload-Keeps h = if-Keeps (ltb (length d.buffer) (packet_size h)) need_more_data _ (
      >>=-Keeps (read_points h.point_count h.header_size h.point_stride d.buffer) _ λ points.
        ok-Keeps (record { buffer = drop (packet_size h) d.buffer }) (with_points h points))

  decode_header-Keeps : (h : Header) → Keeps (decode_header d out h)
  unfolding decode_header
  decode_header-Keeps h = if-Keeps (sizes_unusable h) bad_header _ (
      if-Keeps (flags_unknown h) bad_header _
        (if-Keeps (ltb max_points_per_frame h.point_count) too_large _ (decode_payload-Keeps h)))

  decode_magic-Keeps : (m : ℕ) → Keeps (decode_magic d out m)
  unfolding decode_magic
  decode_magic-Keeps m = if-Keeps (not (m == magic)) bad_magic _ (
      >>=-Keeps (get_uint 2 (drop 4 d.buffer)) _ λ v.
        if-Keeps (not (v == version)) bad_version _
          (>>=-Keeps (read_header d.buffer) _ decode_header-Keeps))

  -- Whatever status other than `ok` the call returns, decoder and output frame stay as they were.
  pub decode_unchanged :
      (d' : Decoder) (out' : ScanFrame) (s : DecodeStatus)
      → decode d out ≡ some (s, d', out')
      → s ≢ ok
      → (d' ≡ d) × (out' ≡ out)
  unfolding decode
  decode_unchanged d' out' s =
      if-Keeps (ltb (length d.buffer) 32) need_more_data _
        (>>=-Keeps (get_uint 4 d.buffer) _ decode_magic-Keeps) s d' out'
