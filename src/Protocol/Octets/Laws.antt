-- ===== src/Protocol/Octets/Laws.antt =====
-- What the octet helpers of common/Protocol.hpp write and read, in plain arithmetic.
use native.Mathlib.Nat.{div-div-eq-div-mul, pow-le-pow_right, mod-eq_of_lt, div-add-mod, one-le-pow}
use aeb_node.Prelude.{
  ℕ, zero, suc, ◌+◌, ◌*◌, ◌/◌, ◌%◌, ◌^◌, ◌≤◌, ◌<◌, ◌≡◌, refl, sym, ap, ◌∙◌, [], ◌∷◌, ◌++◌, some,
  bit_or, append-nil, append_assoc, length, arith,
}
use aeb_node.Prelude.Bits.{bit_or_shifted, two-pow-octet, two-pow-octet_suc}
use aeb_node.Protocol.Octets.{Bytes, put_octets, put_uint, get_octets, get_uint}

-- The `n` lowest octets of `v`, lowest first.
abbrev pub octets : ℕ → ℕ → Bytes
octets zero v = []
octets (suc n) v = v % 256 ∷ octets n (v / 256)

pub length-octets : (n v : ℕ) → length (octets n v) ≡ n
length-octets zero v = refl
length-octets (suc n) v = ap suc (length-octets n (v / 256))

next_octet : (v i : ℕ) → v / 2 ^ (8 * i) / 256 ≡ v / 2 ^ (8 * (i + 1))
next_octet v i =
    div-div-eq-div-mul v (2 ^ (8 * i)) 256 ∙ ap (λ k. v / k) (omega (arith, two-pow-octet i))

-- An octet shifted by `i` places fits 64 bits, as long as there are eight places in all.
shifted_fits : (b i : ℕ) → b < 256 → i < 8 → b * 2 ^ (8 * i) < 2 ^ 64
shifted_fits b i hb hi = below (2 ^ (8 * i)) (one-le-pow (8 * i) 2 (omega arith)) (
    omega (
      arith,
      two-pow-octet i,
      pow-le-pow_right {n = 2} (omega arith) {i = 8 * (i + 1)} {j = 64} (omega arith),
    ))
  where
    below : (place : ℕ) → 1 ≤ place → 256 * place ≤ 2 ^ 64 → b * place < 2 ^ 64
    below place h k = grind arith

get_octets_step :
    (n i b acc : ℕ) (xs : Bytes)
    → b < 256
    → i < 8
    → acc < 2 ^ (8 * i)
    → get_octets (suc n) i (b ∷ xs) acc ≡ get_octets n (i + 1) xs (acc + b * 2 ^ (8 * i))
unfolding get_octets
get_octets_step n i b acc xs hb hi ha =
    ap (get_octets n (i + 1) xs)
      (ap (bit_or acc) (mod-eq_of_lt (shifted_fits b i hb hi)) ∙ bit_or_shifted (8 * i) acc b ha)

put_octets-octets :
    (n i : ℕ) (out : Bytes) (v : ℕ) → put_octets n i out v ≡ out ++ octets n (v / 2 ^ (8 * i))
unfolding put_octets
put_octets-octets zero i out v = sym (append-nil out)
put_octets-octets (suc n) i out v =
    put_octets-octets n (i + 1) _ v
    ∙ append_assoc out _ _
    ∙ ap (λ k. out ++ (v / 2 ^ (8 * i) % 256 ∷ octets n k)) (sym (next_octet v i))

pub put_uint-octets : (n : ℕ) (out : Bytes) (v : ℕ) → put_uint n out v ≡ out ++ octets n v
unfolding put_uint
put_uint-octets n out v = put_octets-octets n 0 out v ∙ ap (λ k. out ++ octets n k) (omega arith)

next_below : (acc place b : ℕ) → acc < place → b < 256 → acc + b * place < 256 * place
next_below acc place b h k = grind arith

-- Reading back what was written, whatever stands behind it.
get_octets-octets :
    (n i v acc : ℕ) (rest : Bytes)
    → n + i ≤ 8
    → v < 2 ^ (8 * n)
    → acc < 2 ^ (8 * i)
    → get_octets n i (octets n v ++ rest) acc ≡ some (acc + v * 2 ^ (8 * i))
unfolding get_octets
get_octets-octets zero i v acc rest h hv ha =
    let e : v ≡ 0 = omega arith in rw e (ap some (omega arith))
get_octets-octets (suc n) i v acc rest h hv ha =
    get_octets_step n i (v % 256) acc _ (omega arith) (omega arith) ha
    ∙ get_octets-octets n (i + 1) (v / 256) (acc + v % 256 * place) rest (omega arith)
        (omega (arith, two-pow-octet_suc n))
        (omega (arith, two-pow-octet i, next_below acc place (v % 256) ha (omega arith)))
    ∙ ap some (
        omega (
          arith,
          ap (λ (t : ℕ). v / 256 * t) (two-pow-octet i),
          ap (λ (t : ℕ). t * place) (div-add-mod v 256),
        ))
  where
    place : ℕ
    place = 2 ^ (8 * i)

pub get_uint-octets :
    (n v : ℕ) (rest : Bytes) → n ≤ 8 → v < 2 ^ (8 * n) → get_uint n (octets n v ++ rest) ≡ some v
unfolding get_uint
get_uint-octets n v rest h hv =
    get_octets-octets n 0 v 0 rest (omega arith) hv (omega arith) ∙ ap some (omega arith)

-- A read of `n` octets succeeds exactly when there are so many.
get_octets_total :
    (n i acc : ℕ) (xs : Bytes) → n ≤ length xs → (v : ℕ) × (get_octets n i xs acc ≡ some v)
unfolding get_octets
get_octets_total zero i acc xs h = (acc, refl)
get_octets_total (suc n) i acc [] h = absurd (omega arith)
get_octets_total (suc n) i acc (x ∷ xs) h = get_octets_total n (i + 1) _ xs (omega arith)

pub get_uint_total : (n : ℕ) (xs : Bytes) → n ≤ length xs → (v : ℕ) × (get_uint n xs ≡ some v)
unfolding get_uint
get_uint_total n xs h = get_octets_total n 0 0 xs h

get_octets-append :
    (n i acc : ℕ) (xs ys : Bytes)
    → n ≤ length xs
    → get_octets n i (xs ++ ys) acc ≡ get_octets n i xs acc
unfolding get_octets
get_octets-append zero i acc xs ys h = refl
get_octets-append (suc n) i acc [] ys h = absurd (omega arith)
get_octets-append (suc n) i acc (x ∷ xs) ys h = get_octets-append n (i + 1) _ xs ys (omega arith)

pub get_uint-append :
    (n : ℕ) (xs ys : Bytes) → n ≤ length xs → get_uint n (xs ++ ys) ≡ get_uint n xs
unfolding get_uint
get_uint-append n xs ys h = get_octets-append n 0 0 xs ys h
