-- ===== src/Protocol/Decoder/Stable.antt =====
-- common/Protocol.hpp, ProtocolDecoder::decode: a verdict and the octets that arrive after it.
use aeb_node.Prelude.{
  ℕ, zero, suc, ◌+◌, ◌*◌, ◌≤◌, ◌≡◌, ◌≢◌, refl, ◌∙◌, ap, Bool, true, false, ◌++◌, Option, some, none,
  length, drop, length-append, drop-append_of_le, get_elem?-append_left, length-drop, ltb, arith,
  not, ◌==◌, ◌>>=◌, if◌then◌else◌,
}
use aeb_node.Types.{ScanFrame}
use aeb_node.Protocol.{
  DecodeStatus, ok, need_more_data, bad_magic, bad_version, bad_header, too_large,
  max_points_per_frame, magic, version,
}
use aeb_node.Protocol.Octets.{Bytes, get_uint, get_float32}
use aeb_node.Protocol.Octets.Laws.{get_uint-append}
use aeb_node.Protocol.Decoder.{
  Decoder, Header, Decoded, with_points, feed, read_header, sizes_unusable, flags_unknown,
  packet_size, read_point, read_points, decode_payload, decode_header, decode_version, decode_magic,
  decode,
}

module _ (more : Bytes) where
  field-append :
      (n off : ℕ) (xs : Bytes)
      → off + n ≤ length xs
      → get_uint n (drop off (xs ++ more)) ≡ get_uint n (drop off xs)
  field-append n off xs h =
      ap (get_uint n) (drop-append_of_le off xs more (omega arith))
      ∙ get_uint-append n (drop off xs) more (omega (arith, length-drop off xs))

  read_header-append : (xs : Bytes) → 32 ≤ length xs → read_header (xs ++ more) ≡ read_header xs
  unfolding read_header
  read_header-append xs h = rw (
    field-append 2 6 xs (omega arith),
    field-append 4 8 xs (omega arith),
    field-append 4 12 xs (omega arith),
    field-append 8 16 xs (omega arith),
    field-append 4 24 xs (omega arith),
    field-append 2 28 xs (omega arith),
  )

  read_point-append :
      (xs : Bytes) (p : ℕ) → p + 9 ≤ length xs → read_point (xs ++ more) p ≡ read_point xs p
  unfolding read_point get_float32
  read_point-append xs p h = rw (
    field-append 4 p xs (omega arith),
    field-append 4 (p + 4) xs (omega arith),
    get_elem?-append_left xs more (p + 8) (omega arith),
  )

  read_points-append :
      (left p stride : ℕ) (xs : Bytes)
      → 9 ≤ stride
      → p + left * stride ≤ length xs
      → read_points left p stride (xs ++ more) ≡ read_points left p stride xs
  unfolding read_points
  read_points-append zero p stride xs hs h = refl
  read_points-append (suc left) p stride xs hs h = rw (
    read_point-append xs p (grind arith),
    read_points-append left (p + stride) stride xs hs (grind arith),
  )

  -- A verdict `m` on a buffer and the verdict `m'` on the same buffer with `more` behind it.
  abbrev Stable : Option Decoded → Option Decoded → Type 0
  Stable m m' =
      (s : DecodeStatus) (d : Decoder) (out : ScanFrame)
      → m ≡ some (s, d, out)
      → s ≢ need_more_data
      → m' ≡ some (s, feed d more, out)

  some-Stable :
      (r : Decoded) (m' : Option Decoded) → m' ≡ some (r.0, feed r.1 more, r.2) → Stable (some r) m'
  some-Stable r m' q s d out e h = cc

  same-Stable : (r : Decoded) → Stable (some r) (some (r.0, feed r.1 more, r.2))
  same-Stable r = some-Stable r _ refl

  -- Where the shorter buffer waits for more, nothing is claimed of the longer one.
  wait-Stable :
      (b b' : Bool) (d : Decoder) (out : ScanFrame) (y x' y' : Option Decoded)
      → (b ≡ false → b' ≡ false)
      → (b ≡ false → Stable y y')
      → Stable (if b then some (need_more_data, d, out) else y) (if b' then x' else y')
  wait-Stable true b' d out y x' y' q g s d' out' e h = absurd (h (cc))
  wait-Stable false b' d out y x' y' q g s d' out' e h = rw (q refl) (g refl s d' out' e h)

  >>=-Stable {ℓ} :
      {A : Type ℓ} (m m' : Option A) (f f' : A → Option Decoded)
      → m' ≡ m
      → ((a : A) → Stable (f a) (f' a))
      → Stable (m >>= f) (m' >>= f')
  >>=-Stable none m' f f' q g s d out e h = cc
  >>=-Stable (some a) m' f f' q g s d out e h = rw q (g a s d out e h)

  if-Stable :
      (b : Bool) (x y x' y' : Option Decoded)
      → Stable x x'
      → (b ≡ false → Stable y y')
      → Stable (if b then x else y) (if b then x' else y')
  if-Stable true x y x' y' f g = f
  if-Stable false x y x' y' f g = g refl

  longer : (xs : Bytes) (n : ℕ) → ltb (length xs) n ≡ false → ltb (length (xs ++ more)) n ≡ false
  longer xs n e = ground (arith, length-append xs more)

  payload_fits :
      (d : Decoder) (h : Header)
      → ltb (length d.buffer) (packet_size h) ≡ false
      → h.header_size + h.point_count * h.point_stride ≤ length d.buffer
  unfolding packet_size
  payload_fits d h e = ground arith

  packet_fits :
      (d : Decoder) (h : Header)
      → ltb (length d.buffer) (packet_size h) ≡ false
      → packet_size h ≤ length d.buffer
  packet_fits d h e = ground arith

  decode_payload-Stable :
      (d : Decoder) (out : ScanFrame) (h : Header)
      → 9 ≤ h.point_stride
      → Stable (decode_payload d out h) (decode_payload (feed d more) out h)
  unfolding decode_payload feed
  decode_payload-Stable d out h hs =
      wait-Stable (ltb (length d.buffer) (packet_size h)) _ d out _ _ _
        (λ e. longer d.buffer (packet_size h) e)
        λ enough.
          >>=-Stable (read_points h.point_count h.header_size h.point_stride d.buffer) _ _ _
            (read_points-append h.point_count h.header_size h.point_stride d.buffer hs
              (payload_fits d h enough))
            λ points. some-Stable _ _ (
              ap (λ b. some (ok, record { buffer = b }, with_points h points))
                (drop-append_of_le _ d.buffer more (packet_fits d h enough)))

  usable_stride : (h : Header) → sizes_unusable h ≡ false → 10 ≤ h.point_stride
  unfolding sizes_unusable
  usable_stride h e = ground arith

  decode_header-Stable :
      (d : Decoder) (out : ScanFrame) (h : Header)
      → Stable (decode_header d out h) (decode_header (feed d more) out h)
  unfolding decode_header
  decode_header-Stable d out h =
      if-Stable (sizes_unusable h) _ _ _ _ (same-Stable (bad_header, d, out)) λ sizes.
        if-Stable (flags_unknown h) _ _ _ _ (same-Stable (bad_header, d, out)) λ known.
          if-Stable (ltb max_points_per_frame h.point_count) _ _ _ _
            (same-Stable (too_large, d, out))
            λ few. decode_payload-Stable d out h (omega (arith, usable_stride h sizes))

  decode_version-Stable :
      (d : Decoder) (out : ScanFrame) (v : ℕ)
      → 32 ≤ length d.buffer
      → Stable (decode_version d out v) (decode_version (feed d more) out v)
  unfolding decode_version feed
  decode_version-Stable d out v h =
      if-Stable (not (v == version)) _ _ _ _ (same-Stable (bad_version, d, out)) λ known.
        >>=-Stable (read_header d.buffer) _ _ _ (read_header-append d.buffer h)
          (decode_header-Stable d out)

  decode_magic-Stable :
      (d : Decoder) (out : ScanFrame) (m : ℕ)
      → 32 ≤ length d.buffer
      → Stable (decode_magic d out m) (decode_magic (feed d more) out m)
  unfolding decode_magic feed
  decode_magic-Stable d out m h =
      if-Stable (not (m == magic)) _ _ _ _ (same-Stable (bad_magic, d, out)) λ synchronised.
        >>=-Stable (get_uint 2 (drop 4 d.buffer)) _ _ _ (field-append 2 4 d.buffer (omega arith))
          λ v. decode_version-Stable d out v h

  -- A verdict other than `need_more_data` stays when more octets arrive: the status and the frame
  -- are the same, and the new octets stand behind what the shorter buffer would have kept.
  pub decode-feed :
      (d d' : Decoder) (out out' : ScanFrame) (s : DecodeStatus)
      → decode d out ≡ some (s, d', out')
      → s ≢ need_more_data
      → decode (feed d more) out ≡ some (s, feed d' more, out')
  unfolding decode feed
  decode-feed d d' out out' s =
      wait-Stable (ltb (length d.buffer) 32) _ d out _ _ _ (longer d.buffer 32)
        (λ enough.
          >>=-Stable (get_uint 4 d.buffer) _ _ _ (get_uint-append 4 d.buffer more (ground arith))
            λ m. decode_magic-Stable d out m (ground arith))
        s d' out'
