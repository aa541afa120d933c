-- ===== src/Protocol/Decoder/Bounds.antt =====
-- common/Protocol.hpp, ProtocolDecoder::decode: the reads of the buffer against its size.
use aeb_node.Prelude.{
  ℕ, zero, suc, ◌+◌, ◌*◌, ◌≤◌, ◌<◌, ◌≡◌, refl, ◌∙◌, ap, Bool, true, false, List, [], ◌∷◌, Option,
  some, length, drop, get_elem?, length-drop, ltb, arith, not, ◌==◌, if◌then◌else◌, ◌>>=◌,
}
use aeb_node.Types.{ScanFrame}
use aeb_node.Protocol.{
  need_more_data, bad_magic, bad_version, bad_header, too_large, max_points_per_frame, magic,
  version,
}
use aeb_node.Protocol.Octets.{Bytes, get_uint, get_float32}
use aeb_node.Protocol.Octets.Laws.{get_uint_total}
use aeb_node.Protocol.Decoder.{
  Decoder, Header, read_header, sizes_unusable, flags_unknown, packet_size, read_point, read_points,
  decode_payload, decode_header, decode_version, decode_magic, decode,
}

-- The action returns: it makes no read outside of the buffer.
abbrev pub Returns {ℓ} : {A : Type ℓ} → Option A → Type ℓ
Returns {A} m = (a : A) × (m ≡ some a)

>>=-Returns {ℓ κ} :
    {A : Type ℓ} {B : Type κ} (m : Option A) (f : A → Option B)
    → Returns m
    → ((a : A) → Returns (f a))
    → Returns (m >>= f)
>>=-Returns m f (a, e) k = let (b, q) = k a in (b, ap (λ x. x >>= f) e ∙ q)

if-Returns {ℓ} :
    {A : Type ℓ} (b : Bool) (x y : Option A)
    → (b ≡ true → Returns x)
    → (b ≡ false → Returns y)
    → Returns (if b then x else y)
if-Returns true x y f g = f refl
if-Returns false x y f g = g refl

field_total : (n off : ℕ) (xs : Bytes) → off + n ≤ length xs → Returns (get_uint n (drop off xs))
field_total n off xs h = get_uint_total n (drop off xs) (omega (arith, length-drop off xs))

get_elem?_total {ℓ} : {A : Type ℓ} (xs : List A) (i : ℕ) → i < length xs → Returns (get_elem? xs i)
get_elem?_total [] i h = absurd (omega arith)
get_elem?_total (x ∷ xs) zero h = (x, refl)
get_elem?_total (x ∷ xs) (suc i) h = get_elem?_total xs i (omega arith)

read_header_total : (xs : Bytes) → 32 ≤ length xs → Returns (read_header xs)
unfolding read_header
read_header_total xs h = >>=-Returns _ _ (field_total 2 6 xs (omega arith)) λ a.
    >>=-Returns _ _ (field_total 4 8 xs (omega arith)) λ b.
      >>=-Returns _ _ (field_total 4 12 xs (omega arith)) λ c.
        >>=-Returns _ _ (field_total 8 16 xs (omega arith)) λ d.
          >>=-Returns _ _ (field_total 4 24 xs (omega arith))
            λ e. >>=-Returns _ _ (field_total 2 28 xs (omega arith)) λ f. (_, refl)

read_point_total : (xs : Bytes) (p : ℕ) → p + 9 ≤ length xs → Returns (read_point xs p)
unfolding read_point get_float32
read_point_total xs p h = >>=-Returns _ _ (field_total 4 p xs (omega arith)) λ a.
    >>=-Returns _ _ (field_total 4 (p + 4) xs (omega arith))
      λ b. >>=-Returns _ _ (get_elem?_total xs (p + 8) (omega arith)) λ c. (_, refl)

pub read_points_total :
    (left p stride : ℕ) (xs : Bytes)
    → 9 ≤ stride
    → p + left * stride ≤ length xs
    → Returns (read_points left p stride xs)
unfolding read_points
read_points_total zero p stride xs hs h = ([], refl)
read_points_total (suc left) p stride xs hs h =
    >>=-Returns _ _ (read_point_total xs p (grind arith)) λ a.
      >>=-Returns _ _ (read_points_total left (p + stride) stride xs hs (grind arith))
        λ b. (_, refl)

payload_fits :
    (d : Decoder) (h : Header)
    → ltb (length d.buffer) (packet_size h) ≡ false
    → h.header_size + h.point_count * h.point_stride ≤ length d.buffer
unfolding packet_size
payload_fits d h e = ground arith

decode_payload_total :
    (d : Decoder) (out : ScanFrame) (h : Header)
    → 9 ≤ h.point_stride
    → Returns (decode_payload d out h)
unfolding decode_payload
decode_payload_total d out h hs =
    if-Returns (ltb (length d.buffer) (packet_size h)) (some (need_more_data, d, out)) _
      (λ short. (_, refl))
      λ enough.
        >>=-Returns _ _
          (read_points_total h.point_count h.header_size h.point_stride d.buffer hs
            (payload_fits d h enough))
          λ points. (_, refl)

usable_stride : (h : Header) → sizes_unusable h ≡ false → 10 ≤ h.point_stride
unfolding sizes_unusable
usable_stride h e = ground arith

decode_header_total : (d : Decoder) (out : ScanFrame) (h : Header) → Returns (decode_header d out h)
unfolding decode_header
decode_header_total d out h =
    if-Returns (sizes_unusable h) (some (bad_header, d, out)) _ (λ e. (_, refl))
      λ sizes.
        if-Returns (flags_unknown h) (some (bad_header, d, out)) _ (λ e. (_, refl))
          λ known.
            if-Returns (ltb max_points_per_frame h.point_count) (some (too_large, d, out)) _
              (λ e. (_, refl))
              λ few. decode_payload_total d out h (omega (arith, usable_stride h sizes))

decode_version_total :
    (d : Decoder) (out : ScanFrame) (v : ℕ)
    → 32 ≤ length d.buffer
    → Returns (decode_version d out v)
unfolding decode_version
decode_version_total d out v h =
    if-Returns (not (v == version)) (some (bad_version, d, out)) _ (λ e. (_, refl))
      λ known. >>=-Returns _ _ (read_header_total d.buffer h) (decode_header_total d out)

decode_magic_total :
    (d : Decoder) (out : ScanFrame) (m : ℕ) → 32 ≤ length d.buffer → Returns (decode_magic d out m)
unfolding decode_magic
decode_magic_total d out m h =
    if-Returns (not (m == magic)) (some (bad_magic, d, out)) _ (λ e. (_, refl))
      λ synchronised.
        >>=-Returns _ _ (field_total 2 4 d.buffer (omega arith)) λ v. decode_version_total d out v h

-- On every buffer `decode` returns: it never reads an octet outside of the buffer.
pub decode_total : (d : Decoder) (out : ScanFrame) → Returns (decode d out)
unfolding decode
decode_total d out =
    if-Returns (ltb (length d.buffer) 32) (some (need_more_data, d, out)) _ (λ short. (_, refl))
      λ enough.
        >>=-Returns _ _ (get_uint_total 4 d.buffer (ground arith))
          λ m. decode_magic_total d out m (ground arith)
