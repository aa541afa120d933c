-- ===== src/App/CommandLine/Errors.antt =====
-- Where CommandLine::parse stops: the request for help and the faults in the arguments.
pub mod First
use aeb_node.Prelude.{
  ℕ, ◌≤◌, ◌<◌, ◌≡◌, ◌⊎◌, inl, inr, refl, ap, ◌∙◌, Bool, true, false, ◌&&◌, List, [], ◌∷◌, ◌++◌,
  none, some, leb, ◌==◌, arith, All, if-eq_of_false,
}
use mathlib.Core.Bool.{false≢true}
use aeb_node.Prelude.Text.{Text, codes, same_text}
use aeb_node.Float32.Text.{stof, is_space}
use aeb_node.App.Options.{Options, default_options}
use aeb_node.App.CommandLine.{
  Outcome, failed, strtoul, judged, max_numeric_value, parse_unsigned, parse_float, not_valid,
  apply_flag, apply_value, apply_valued, parse_loop, parse, is_help, name, Valued, then_set,
  all_valued, find_valued, device, baud, scan_timeout, can_interface, health_interval, tcp_port,
  min_angle, max_angle, max_distance, min_quality, min_hits,
}
use aeb_node.App.CommandLine.Numerals.{is_digit, all_digits, decimal, parse_unsigned_lem}
use aeb_node.App.CommandLine.Settings.{Setting, configure_all, AllWritten}
use aeb_node.App.CommandLine.RoundTrip.{continued, parse_loop-valued, parse_loop-AllWritten}

abbrev pub is_number : Valued → Bool
is_number baud = true
is_number scan_timeout = true
is_number health_interval = true
is_number tcp_port = true
is_number min_quality = true
is_number min_hits = true
is_number v = false

abbrev pub is_float : Valued → Bool
is_float min_angle = true
is_float max_angle = true
is_float max_distance = true
is_float v = false

-- A text that is no option.
pub record IsUnknown (arg : Text) : Type 0 where
  pub no_help : is_help arg ≡ false
  pub no_flag :
      (same_text arg (codes "--no-reconnect") ≡ false) × (same_text arg (codes "--no-can") ≡ false)
  pub no_valued : All (λ v. same_text arg (name v) ≡ false) all_valued

-- An octet by which no number starts.
pub record StartsNoNumber (c : ℕ) : Type 0 where
  pub no_digit : is_digit c ≡ false
  pub no_space : is_space c ≡ false
  pub no_sign : ((c == b'-') ≡ false) × ((c == b'+') ≡ false)

-- Arguments at which the parse stops, and the error it leaves. Of the numbers, those are not listed whose
-- text starts with a space or a sign.
pub data Stops : List Text → Text → Type 0 where
  help_asked : (rest : List Text) → Stops (codes "--help" ∷ rest) []
  short_help_asked : (rest : List Text) → Stops (codes "-h" ∷ rest) []
  value_missing : (v : Valued) → Stops (name v ∷ []) (codes "missing value for option " ++ name v)
  last_unknown :
      (arg : Text) → IsUnknown arg → Stops (arg ∷ []) (codes "missing value for option " ++ arg)
  option_unknown :
      (arg t : Text) (rest : List Text)
      → IsUnknown arg
      → Stops (arg ∷ t ∷ rest) (codes "unknown option " ++ arg)
  number_empty :
      (v : Valued) (rest : List Text)
      → is_number v ≡ true
      → Stops (name v ∷ [] ∷ rest) (name v ++ codes " requires a number")
  number_bad :
      (v : Valued) (c : ℕ) (s : Text) (rest : List Text)
      → is_number v ≡ true
      → is_digit c ≡ true
      → (all_digits (c ∷ s) ≡ false) ⊎ (max_numeric_value < decimal (c ∷ s))
      → Stops (name v ∷ (c ∷ s) ∷ rest) (not_valid (name v) (c ∷ s) (codes "number"))
  number_none :
      (v : Valued) (c : ℕ) (s : Text) (rest : List Text)
      → is_number v ≡ true
      → StartsNoNumber c
      → Stops (name v ∷ (c ∷ s) ∷ rest) (not_valid (name v) (c ∷ s) (codes "number"))
  float_bad :
      (v : Valued) (t : Text) (rest : List Text)
      → is_float v ≡ true
      → stof t ≡ none
      → Stops (name v ∷ t ∷ rest) (not_valid (name v) t (codes "float"))

then_set-failed {ℓ κ} :
    {A : Type ℓ} {B : Type κ} {error : Text} (r : Outcome A) (f : A → B)
    → r ≡ failed error
    → then_set r f ≡ failed error
then_set-failed r f e = ap (λ q. then_set q f) e

parse_float-none :
    (t option : Text)
    → stof t ≡ none
    → parse_float t option ≡ failed (not_valid option t (codes "float"))
unfolding parse_float
parse_float-none t option e = ground (arith, e)

parse_unsigned-bad :
    (w c : ℕ) (s option : Text)
    → 32 ≤ w
    → is_digit c ≡ true
    → (all_digits (c ∷ s) ≡ false) ⊎ (max_numeric_value < decimal (c ∷ s))
    → parse_unsigned w (c ∷ s) option ≡ failed (not_valid option (c ∷ s) (codes "number"))
parse_unsigned-bad w c s option wide d bad =
    parse_unsigned_lem w c s option wide d
    ∙ if-eq_of_false (all_digits (c ∷ s) && leb (decimal (c ∷ s)) max_numeric_value) _ _
        (rejected bad) refl
  where
    rejected :
        (all_digits (c ∷ s) ≡ false) ⊎ (max_numeric_value < decimal (c ∷ s))
        → (all_digits (c ∷ s) && leb (decimal (c ∷ s)) max_numeric_value) ≡ false
    rejected (inl e) = ground arith
    rejected (inr lt) = ground arith

-- Nothing is read, and all of the text is left.
strtoul-none :
    (w c : ℕ) (s : Text)
    → StartsNoNumber c
    → strtoul w (c ∷ s) ≡ record { parsed = 0; range_error = false; end = c ∷ s }
unfolding strtoul
strtoul-none w c s h = ground (arith, h.no_digit, h.no_space, h.no_sign)

parse_unsigned-none :
    (w c : ℕ) (s option : Text)
    → StartsNoNumber c
    → parse_unsigned w (c ∷ s) option ≡ failed (not_valid option (c ∷ s) (codes "number"))
unfolding parse_unsigned
parse_unsigned-none w c s option h = ap (judged (c ∷ s) option) (strtoul-none w c s h)

apply_value-number :
    (w : ℕ) (v : Valued) (t error : Text) (o : Options)
    → is_number v ≡ true
    → parse_unsigned w t (name v) ≡ failed error
    → apply_value w v (name v) t o ≡ failed error
unfolding apply_value
apply_value-number w device t error o h e = absurd (false≢true h)
apply_value-number w baud t error o h e = then_set-failed _ _ e
apply_value-number w scan_timeout t error o h e = then_set-failed _ _ e
apply_value-number w can_interface t error o h e = absurd (false≢true h)
apply_value-number w health_interval t error o h e = then_set-failed _ _ e
apply_value-number w tcp_port t error o h e = then_set-failed _ _ e
apply_value-number w min_angle t error o h e = absurd (false≢true h)
apply_value-number w max_angle t error o h e = absurd (false≢true h)
apply_value-number w max_distance t error o h e = absurd (false≢true h)
apply_value-number w min_quality t error o h e = then_set-failed _ _ e
apply_value-number w min_hits t error o h e = then_set-failed _ _ e

apply_value-float :
    (w : ℕ) (v : Valued) (t : Text) (o : Options)
    → is_float v ≡ true
    → stof t ≡ none
    → apply_value w v (name v) t o ≡ failed (not_valid (name v) t (codes "float"))
unfolding apply_value
apply_value-float w device t o h e = absurd (false≢true h)
apply_value-float w baud t o h e = absurd (false≢true h)
apply_value-float w scan_timeout t o h e = absurd (false≢true h)
apply_value-float w can_interface t o h e = absurd (false≢true h)
apply_value-float w health_interval t o h e = absurd (false≢true h)
apply_value-float w tcp_port t o h e = absurd (false≢true h)
apply_value-float w min_angle t o h e = then_set-failed _ _ (parse_float-none t (name min_angle) e)
apply_value-float w max_angle t o h e = then_set-failed _ _ (parse_float-none t (name max_angle) e)
apply_value-float w max_distance t o h e =
    then_set-failed _ _ (parse_float-none t (name max_distance) e)
apply_value-float w min_quality t o h e = absurd (false≢true h)
apply_value-float w min_hits t o h e = absurd (false≢true h)
