-- ===== src/Protocol/Receive/Chunks.antt =====
-- The stream of encoded frames is received whole, however it is cut up.
use mathlib.Core.List.{map-append}
use aeb_node.Prelude.{
  ℕ, zero, suc, ◌<◌, ◌≡◌, refl, sym, ap, ◌∙◌, ◌⊎◌, inl, inr, List, [], ◌∷◌, ◌++◌, Option, some,
  length, >>=-eq_of_some, arith, map, All, append-nil, append_assoc, length-append,
}
use aeb_node.Types.{ScanFrame, IsFrame, default_frame}
use aeb_node.Protocol.{ok, need_more_data}
use aeb_node.Protocol.Octets.{Bytes}
use aeb_node.Protocol.Encoder.{encode}
use aeb_node.Protocol.Decoder.{Decoder, new_decoder, feed, decode}
use aeb_node.Protocol.Wire.Encoded.{
  encodings, truncated, packet_of, encode-wire, packet_of-IsPacket, length-encode_pos,
}
use aeb_node.Protocol.Wire.RoundTrip.{decode-encode, decode_incomplete}
use aeb_node.Protocol.Receive.{drain, receive}

abbrev pub concat : List Bytes → Bytes
concat [] = []
concat (c ∷ cs) = c ++ concat cs

-- Of two beginnings of a list, one is a beginning of the other.
append_split {ℓ} :
    {A : Type ℓ} (xs ys zs ws : List A)
    → xs ++ ys ≡ zs ++ ws
    → ((m : List A) × (xs ≡ zs ++ m) × (m ++ ys ≡ ws))
      ⊎ ((x : A) × (m : List A) × (zs ≡ xs ++ (x ∷ m)))
append_split xs ys [] ws e = inl (xs, refl, e)
append_split [] ys (z ∷ zs) ws e = inr (z, zs, refl)
append_split (x ∷ xs) ys (z ∷ zs) ws e = elim (append_split xs ys zs ws (cc e)) [
  | inl (m, p, q) ↦ inl (m, cc (p, e), q)
  | inr (y, m, p) ↦ inr (y, m, cc (p, e))
]

-- What is buffered is less than the packet that comes next.
abbrev Short : Bytes → List ScanFrame → Type 0
Short b [] = b ≡ []
Short b (f ∷ fs) = length b < length (encode f)

decode_short :
    (f : ScanFrame) (b back : Bytes) (x : ℕ) (out : ScanFrame)
    → IsFrame f
    → encode f ≡ b ++ (x ∷ back)
    → decode (record { buffer = b }) out ≡ some (need_more_data, record { buffer = b }, out)
decode_short f b back x out h e =
    decode_incomplete (packet_of f) b back x out (packet_of-IsPacket f h) (sym (encode-wire f) ∙ e)

decode_empty : (out : ScanFrame) → decode new_decoder out ≡ some (need_more_data, new_decoder, out)
unfolding decode
decode_empty out = refl

drain-ok :
    (n : ℕ) (d d' : Decoder) (out f : ScanFrame) {fs : List ScanFrame} {d'' : Decoder}
    → decode d out ≡ some (ok, d', f)
    → drain n d' f ≡ some (fs, d'')
    → drain (suc n) d out ≡ some (f ∷ fs, d'')
unfolding drain
drain-ok n d d' out f e k =
    >>=-eq_of_some (decode d out) _ e (>>=-eq_of_some (drain n d' f) _ k refl)

drain-more :
    (n : ℕ) (d : Decoder) (out : ScanFrame)
    → decode d out ≡ some (need_more_data, d, out)
    → drain (suc n) d out ≡ some ([], d)
unfolding drain
drain-more n d out e = >>=-eq_of_some (decode d out) _ e refl

-- What draining a buffer comes to: the frames that have arrived whole are read, and the rest is short.
abbrev Drained : Option (List ScanFrame × Decoder) → List ScanFrame → Bytes → Type 0
Drained r fs rest =
    (whole fs' : List ScanFrame) × (b : Bytes) × (r
      ≡ some (map truncated whole, record { buffer = b }))
    × (whole ++ fs' ≡ fs)
    × All IsFrame fs'
    × (b ++ rest ≡ encodings fs')
    × Short b fs'

drain-Drained :
    (n : ℕ) (fs : List ScanFrame) (b rest : Bytes) (out : ScanFrame)
    → All IsFrame fs
    → b ++ rest ≡ encodings fs
    → length b < n
    → Drained (drain n (record { buffer = b }) out) fs rest
drain-Drained zero fs b rest out h e lt = absurd (omega arith)
drain-Drained (suc n) [] [] rest out h e lt =
    ([], [], [], drain-more n new_decoder out (decode_empty out), refl, h, e, refl)
drain-Drained (suc n) [] (x ∷ b) rest out h e lt = absurd (cc e)
drain-Drained (suc n) (f ∷ fs) b rest out h e lt =
    elim (append_split b rest (encode f) (encodings fs) e) [
      | inl (m, p, q) ↦
          (let (whole, fs', b', r, w, k, q', s) =
              drain-Drained n fs m rest (truncated f) (h.1) q
                (omega (arith, ap length p, length-append (encode f) m, length-encode_pos f)) in
            (
              f ∷ whole,
              fs',
              b',
              drain-ok n (record { buffer = b }) (record { buffer = m }) out (truncated f)
                  (ap (λ xs. decode (record { buffer = xs }) out) p ∙ decode-encode f out m (h.0))
                  r,
              ap (λ l. f ∷ l) w,
              k,
              q',
              s,
            ))
      | inr (x, m, p) ↦ (
        [],
        f ∷ fs,
        b,
        drain-more n (record { buffer = b }) out (decode_short f b m x out (h.0) p),
        refl,
        h,
        e,
        omega (arith, ap length p, length-append b (x ∷ m)),
      )
    ]

-- Nothing short is a series of whole packets.
Short-encodings :
    (b : Bytes) (fs : List ScanFrame) → Short b fs → b ≡ encodings fs → (fs ≡ []) × (b ≡ [])
Short-encodings b [] s e = (refl, s)
Short-encodings b (f ∷ fs) s e =
    absurd (omega (arith, ap length e, length-append (encode f) (encodings fs)))

receive-Short :
    (chunks : List Bytes) (fs : List ScanFrame) (b : Bytes)
    → All IsFrame fs
    → Short b fs
    → b ++ concat chunks ≡ encodings fs
    → receive chunks (record { buffer = b }) ≡ some (map truncated fs, new_decoder)
unfolding receive feed
receive-Short [] fs b h s e =
    let (none_left, empty) = Short-encodings b fs s (sym (append-nil b) ∙ e) in
    ap (λ xs. some ([], record { buffer = xs })) empty
    ∙ ap (λ l. some (map truncated l, new_decoder)) (sym none_left)
receive-Short (c ∷ chunks) fs b h s e =
    let (whole, fs', b', r, w, k, q, s') =
      drain-Drained (suc (length (b ++ c))) fs (b ++ c) (concat chunks) default_frame h
        (append_assoc b c (concat chunks) ∙ e) (omega arith) in
    >>=-eq_of_some (drain (suc (length (b ++ c))) (record { buffer = b ++ c }) default_frame) _ r (
      >>=-eq_of_some (receive chunks (record { buffer = b' })) _
        (receive-Short chunks fs' b' k s' q)
        (ap (λ l. some (l, new_decoder))
          (sym (map-append truncated whole fs') ∙ ap (map truncated) w)))

-- The encodings of any frames, one after the other and cut into reads at any places, are received as
-- those frames in order, up to the limit on points, by a new decoder that is fed each read and drained
-- before the next, and leave nothing in its buffer.
pub receive-encodings :
    (chunks : List Bytes) (fs : List ScanFrame)
    → All IsFrame fs
    → concat chunks ≡ encodings fs
    → receive chunks new_decoder ≡ some (map truncated fs, new_decoder)
receive-encodings chunks fs h e = receive-Short chunks fs [] h (nothing fs) e
  where
    nothing : (fs : List ScanFrame) → Short [] fs
    nothing [] = refl
    nothing (f ∷ fs) = omega (arith, length-encode_pos f)
