-- ===== src/App/CommandLine/Numerals.antt =====
-- What parseUnsigned reads (app/CommandLine.cpp), against decimal numerals read place by place.
use aeb_node.Prelude.{
  ℕ, suc, ◌+◌, ◌-◌, ◌*◌, ◌^◌, ◌≤◌, ◌≡◌, refl, sym, ap, ◌∙◌, Bool, true, false, ◌&&◌, [], ◌∷◌, none,
  some, length, leb, if◌then◌else◌, arith, subst, inl, inr, Bool-cases, if-eq_of_false,
}
use native.Mathlib.Nat.{pow-le-pow_right, mod-eq_of_lt, add-mul, mul_assoc, add_assoc}
use mathlib.Core.Bool.{true≢false}
use aeb_node.Prelude.Text.{Text, codes, is_empty}
use aeb_node.Float32.Text.{is_space, read_sign, digit, Digits, more_digits}
use aeb_node.App.CommandLine.{
  Outcome, done, failed, max_numeric_value, strtoul, judged, parse_unsigned, not_valid, converted,
}

abbrev pub is_digit : ℕ → Bool
is_digit c = leb b'0' c && leb c b'9'

abbrev pub all_digits : Text → Bool
all_digits [] = true
all_digits (c ∷ s) = is_digit c && all_digits s

-- The value of a numeral: each digit counts as many tens as digits follow it.
abbrev pub decimal : Text → ℕ
decimal [] = 0
decimal (c ∷ s) = (c - b'0') * 10 ^ length s + decimal s

digit-decimal : (c : ℕ) → digit 10 c ≡ (if is_digit c then some (c - b'0') else none)
digit-decimal c = refl

-- One digit more, in front of `r` with `k` places.
next_place : (v d k r : ℕ) → (v * 10 + d) * 10 ^ k + r ≡ v * 10 ^ suc k + (d * 10 ^ k + r)
next_place v d k r =
    ap (λ n. n + r)
      (add-mul (v * 10) d (10 ^ k)
        ∙ ap (λ n. n + d * 10 ^ k) (mul_assoc v 10 (10 ^ k) ∙ ap (λ n. v * n) (omega arith)))
    ∙ add_assoc (v * 10 ^ suc k) (d * 10 ^ k) r

-- The branch of one octet, on what `digit` says.
more_digits-digit :
    (v n c : ℕ) (s : Text)
    → is_digit c ≡ true
    → more_digits 10 v n (c ∷ s) ≡ more_digits 10 (v * 10 + (c - b'0')) (n + 1) s
more_digits-digit v n c s h = ground arith

more_digits-other :
    (v n c : ℕ) (s : Text)
    → is_digit c ≡ false
    → more_digits 10 v n (c ∷ s) ≡ record { value = v; count = n; rest = c ∷ s }
more_digits-other v n c s h = ground arith

Digits-read :
    {v w m n : ℕ}
    → v ≡ w
    → m ≡ n
    → ◌≡◌ {A = Digits}
        (record { value = v; count = m; rest = [] })
        (record { value = w; count = n; rest = [] })
Digits-read p q = cc (p, q)

more_digits-all :
    (v n : ℕ) (s : Text)
    → all_digits s ≡ true
    → more_digits 10 v n s
      ≡ record { value = v * 10 ^ length s + decimal s; count = n + length s; rest = [] }
more_digits-all v n [] h = Digits-read (omega arith) (omega arith)
more_digits-all v n (c ∷ s) h =
    more_digits-digit v n c s (ground arith)
    ∙ more_digits-all (v * 10 + (c - b'0')) (n + 1) s (ground arith)
    ∙ Digits-read (next_place v (c - b'0') (length s) (decimal s)) (omega arith)

more_digits-not_all :
    (v n : ℕ) (s : Text)
    → all_digits s ≡ false
    → (is_empty (more_digits 10 v n s).rest ≡ false) × (n ≤ (more_digits 10 v n s).count)
more_digits-not_all v n [] h = absurd (true≢false h)
more_digits-not_all v n (c ∷ s) h = elim (Bool-cases (is_digit c)) [
  | inl e ↦
      let later = more_digits-not_all (v * 10 + (c - b'0')) (n + 1) s (ground arith) in
      subst Leaves (sym (more_digits-digit v n c s e)) (later.0, omega (arith, later.1))
  | inr e ↦ subst Leaves (sym (more_digits-other v n c s e)) (refl, omega arith)
]
  where
    Leaves : Digits → Type 0
    Leaves d = (is_empty d.rest ≡ false) × (n ≤ d.count)

-- A text that starts with a digit is read from there: no space and no sign is skipped.
strtoul-digit :
    (w c : ℕ) (s : Text)
    → is_digit c ≡ true
    → strtoul w (c ∷ s) ≡ converted w (c ∷ s) false (more_digits 10 0 0 (c ∷ s))
unfolding strtoul
strtoul-digit w c s h =
    ap (λ (n, t). converted w (c ∷ s) n (more_digits 10 0 0 t)) {y = (false, c ∷ s)}
      (ap read_sign (if-eq_of_false (is_space c) _ _ (ground arith) refl) ∙ ground arith)

judged-numeral :
    (w v n : ℕ) (text option : Text)
    → 32 ≤ w
    → 1 ≤ n
    → judged text option (converted w text false (record { value = v; count = n; rest = [] })) ≡ (
        if leb v max_numeric_value then done v else failed (not_valid option text (codes "number")))
judged-numeral w v n text option wide h = ground (
  arith,
  pow-le-pow_right {n = 2} (omega arith) {i = 32} {j = w} wide,
  mod-eq_of_lt {n = v} {m = 2 ^ 32},
)

judged-junk :
    (w : ℕ) (text option : Text) (d : Digits)
    → is_empty d.rest ≡ false
    → 1 ≤ d.count
    → judged text option (converted w text false d)
      ≡ failed (not_valid option text (codes "number"))
judged-junk w text option d h k = ground arith

parse_unsigned-digits :
    (w c : ℕ) (s option : Text)
    → 32 ≤ w
    → all_digits (c ∷ s) ≡ true
    → parse_unsigned w (c ∷ s) option ≡ (
        if leb (decimal (c ∷ s)) max_numeric_value
        then done (decimal (c ∷ s))
        else failed (not_valid option (c ∷ s) (codes "number")))
unfolding parse_unsigned
parse_unsigned-digits w c s option wide h =
    ap (judged (c ∷ s) option) (
      strtoul-digit w c s (ground arith)
      ∙ ap (converted w (c ∷ s) false)
          (more_digits-all 0 0 (c ∷ s) h ∙ Digits-read (omega arith) refl))
    ∙ judged-numeral w (decimal (c ∷ s)) (0 + length (c ∷ s)) (c ∷ s) option wide (omega arith)

parse_unsigned-junk :
    (w c : ℕ) (s option : Text)
    → is_digit c ≡ true
    → all_digits (c ∷ s) ≡ false
    → parse_unsigned w (c ∷ s) option ≡ failed (not_valid option (c ∷ s) (codes "number"))
unfolding parse_unsigned
parse_unsigned-junk w c s option d h =
    ap (judged (c ∷ s) option)
      (strtoul-digit w c s d ∙ ap (converted w (c ∷ s) false) (more_digits-digit 0 0 c s d))
    ∙ judged-junk w (c ∷ s) option (more_digits 10 (0 * 10 + (c - b'0')) (0 + 1) s) (later.0)
        (omega (arith, later.1))
  where
    later :
        (is_empty (more_digits 10 (0 * 10 + (c - b'0')) (0 + 1) s).rest ≡ false)
        × (0 + 1 ≤ (more_digits 10 (0 * 10 + (c - b'0')) (0 + 1) s).count)
    later = more_digits-not_all (0 * 10 + (c - b'0')) (0 + 1) s (ground arith)

-- A text that starts with a digit is accepted exactly if all of it is digits and its value fits 32
-- bits, and then the value is the result; otherwise the error names the option and the text. The
-- width of unsigned long is 32 bits or more.
pub parse_unsigned_lem :
    (w c : ℕ) (s option : Text)
    → 32 ≤ w
    → is_digit c ≡ true
    → parse_unsigned w (c ∷ s) option ≡ (
        if all_digits (c ∷ s) && leb (decimal (c ∷ s)) max_numeric_value
        then done (decimal (c ∷ s))
        else failed (not_valid option (c ∷ s) (codes "number")))
parse_unsigned_lem w c s option wide d = elim (Bool-cases (all_digits (c ∷ s))) [
  | inl all ↦ parse_unsigned-digits w c s option wide all ∙ ap verdict (sym all)
  | inr other ↦ parse_unsigned-junk w c s option d other ∙ ap verdict (sym other)
]
  where
    verdict : Bool → Outcome ℕ
    verdict b =
        if b && leb (decimal (c ∷ s)) max_numeric_value
        then done (decimal (c ∷ s))
        else failed (not_valid option (c ∷ s) (codes "number"))
