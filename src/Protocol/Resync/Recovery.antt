-- ===== src/Protocol/Resync/Recovery.antt =====
-- common/Protocol.hpp, ProtocolDecoder::resynchronise: what it finds, keeps and drops.
use aeb_node.Prelude.{
  ℕ, zero, suc, ◌+◌, ◌-◌, ◌≤◌, ◌<◌, ◌≡◌, refl, sym, ◌∙◌, subst, ◌⊎◌, inl, inr, Bool, true, false,
  [], Option, none, some, length, drop, length-drop, ltb, ◌==◌, if◌then◌else◌, arith, ◌>>=◌,
  >>=-eq_of_some, if-eq_of_false,
}
use native.Mathlib.Decide.{dec_lt}
use aeb_node.Protocol.{magic}
use aeb_node.Protocol.Octets.{Bytes}
use aeb_node.Protocol.Octets.Laws.{get_uint_total}
use aeb_node.Protocol.Decoder.{Decoder}
use aeb_node.Protocol.Resync.{magic_at, find_magic, recovered, resynchronise}

magic_at_total :
    (buffer : Bytes) (i : ℕ) → i + 4 ≤ length buffer → (b : Bool) × (magic_at buffer i ≡ some b)
unfolding magic_at
magic_at_total buffer i h =
    let (v, e) = get_uint_total 4 (drop i buffer) (omega (arith, length-drop i buffer)) in
    (v == magic, >>=-eq_of_some _ _ e refl)

module _ (buffer : Bytes) where
  -- No magic number stands at the offsets from `i` up to, but not at, `j`.
  abbrev pub NoMagic : ℕ → ℕ → Type 0
  NoMagic i j = (m : ℕ) → i ≤ m → m < j → magic_at buffer m ≡ some false

  abbrev Finds : ℕ → ℕ → Option (Option ℕ) → Type 0
  Finds left i r =
      ((j : ℕ) × (r ≡ some (some j))
        × (i ≤ j)
        × (j < i + left)
        × (magic_at buffer j ≡ some true)
        × NoMagic i j)
      ⊎ ((r ≡ some none) × NoMagic i (i + left))

  NoMagic-extend : (i j : ℕ) → magic_at buffer i ≡ some false → NoMagic (i + 1) j → NoMagic i j
  NoMagic-extend i j e h m p q = elim (dec_lt i m) [
    | yes above ↦ h m (omega arith) q
    | no here ↦ let same : m ≡ i = omega arith in rw same e
  ]

  found_later :
      (left i : ℕ) (r : Option (Option ℕ))
      → magic_at buffer i ≡ some false
      → Finds left (i + 1) r
      → Finds (suc left) i r
  found_later left i r e (inl (j, q, low, high, hit, before)) =
      inl (j, q, omega arith, omega arith, hit, NoMagic-extend i j e before)
  found_later left i r e (inr (q, before)) =
      inr (q, λ m low high. NoMagic-extend i (i + 1 + left) e before m low (omega arith))

  found_here :
      (left i : ℕ) (r : Option (Option ℕ))
      → magic_at buffer i ≡ some true
      → r ≡ some (some i)
      → Finds (suc left) i r
  found_here left i r e q =
      inl (i, q, omega arith, omega arith, e, λ m low high. absurd (omega arith))

  Finds-step :
      (left i : ℕ) (b : Bool) (rest : Option (Option ℕ))
      → magic_at buffer i ≡ some b
      → Finds left (i + 1) rest
      → Finds (suc left) i (magic_at buffer i >>= λ hit. if hit then some (some i) else rest)
  Finds-step left i true rest e f = found_here left i _ e (>>=-eq_of_some _ _ e refl)
  Finds-step left i false rest e f =
      found_later left i _ e
        (subst (Finds left (i + 1)) (sym (>>=-eq_of_some (magic_at buffer i) _ e refl)) f)

  find_magic-Finds :
      (left i : ℕ) → i + left + 3 ≤ length buffer → Finds left i (find_magic left i buffer)
  unfolding find_magic
  find_magic-Finds zero i h = inr (refl, λ m p q. absurd (omega arith))
  find_magic-Finds (suc left) i h =
      let (b, e) = magic_at_total buffer i (omega arith) in
      Finds-step left i b _ e (find_magic-Finds left (i + 1) (omega arith))

-- How `resynchronise` leaves the decoder, by its result.
abbrev pub Recovers : Bytes → Bool → Bytes → Type 0
Recovers buffer true rest =
    (i : ℕ) × (1 ≤ i)
    × (i + 4 ≤ length buffer)
    × (rest ≡ drop i buffer)
    × (magic_at buffer i ≡ some true)
    × NoMagic buffer 1 i
Recovers buffer false rest =
    NoMagic buffer 1 (length buffer - 3)
    × (((length buffer < 4) × (rest ≡ []))
        ⊎ ((4 ≤ length buffer) × (rest ≡ drop (length buffer - 3) buffer)))

resynchronise_short :
    (d : Decoder) → length d.buffer < 4 → resynchronise d ≡ some (false, record { buffer = [] })
unfolding resynchronise
resynchronise_short d h = ground arith

resynchronise_long :
    (d : Decoder) {found : Option ℕ}
    → 4 ≤ length d.buffer
    → find_magic (length d.buffer - 4) 1 d.buffer ≡ some found
    → resynchronise d ≡ recovered d found
unfolding resynchronise recovered
resynchronise_long d h e =
    if-eq_of_false _ _ _ (enough (length d.buffer) h) (>>=-eq_of_some _ _ e refl)
  where
    enough : (n : ℕ) → 4 ≤ n → ltb n 4 ≡ false
    enough n k = ground arith

abbrev Outcome : Decoder → Type 0
Outcome d =
    (b : Bool) × (d' : Decoder) × (resynchronise d ≡ some (b, d')) × Recovers d.buffer b d'.buffer

resynchronise-found :
    (d : Decoder) (r : Option (Option ℕ))
    → 4 ≤ length d.buffer
    → find_magic (length d.buffer - 4) 1 d.buffer ≡ r
    → Finds d.buffer (length d.buffer - 4) 1 r
    → Outcome d
unfolding recovered
resynchronise-found d r h e (inl (j, q, low, high, hit, before)) = (
  true,
  record { buffer = drop j d.buffer },
  resynchronise_long d h (e ∙ q),
  (j, low, omega arith, refl, hit, before),
)
resynchronise-found d r h e (inr (q, before)) = (
  false,
  record { buffer = drop (length d.buffer - 3) d.buffer },
  resynchronise_long d h (e ∙ q),
  (λ m low high. before m low (omega arith), inr (h, refl)),
)

-- `resynchronise` always returns. With `true` it drops exactly what stands before the first magic
-- number at offset 1 or later. With `false` there is none, and the last three octets stay, or none if
-- there were fewer than four.
pub resynchronise_lem :
    (d : Decoder)
    → (b : Bool) × (d' : Decoder) × (resynchronise d ≡ some (b, d')) × Recovers d.buffer b d'.buffer
resynchronise_lem d = elim (dec_lt (length d.buffer) 4) [
  | yes few ↦ (
    false,
    record { buffer = [] },
    resynchronise_short d few,
    (λ m low high. absurd (omega arith), inl (few, refl)),
  )
  | no enough ↦
      resynchronise-found d _ (omega arith) refl
        (find_magic-Finds d.buffer (length d.buffer - 4) 1 (omega arith))
]
