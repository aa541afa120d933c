-- ===== src/App/CommandLine/Errors/First.antt =====
-- CommandLine::parse at the first fault (app/CommandLine.cpp).
use aeb_node.Prelude.{
  ℕ, ◌≤◌, ◌≡◌, refl, ap, ◌∙◌, false, List, [], ◌∷◌, ◌++◌, none, some, All, if-eq_of_false,
}
use aeb_node.Prelude.Text.{Text, codes, same_text}
use aeb_node.App.Options.{Options, default_options}
use aeb_node.App.CommandLine.{
  Outcome, failed, parse_unsigned, apply_flag, apply_value, apply_valued, parse_loop, parse,
  is_help, name, Valued, all_valued, find_valued, device, baud, scan_timeout, can_interface,
  health_interval, tcp_port, min_angle, max_angle, max_distance, min_quality, min_hits,
}
use aeb_node.App.CommandLine.Settings.{Setting, configure_all, AllWritten}
use aeb_node.App.CommandLine.RoundTrip.{continued, parse_loop-valued, parse_loop-AllWritten}
use aeb_node.App.CommandLine.Errors.{
  IsUnknown, Stops, help_asked, short_help_asked, value_missing, last_unknown, option_unknown,
  number_empty, number_none, parse_unsigned-none, number_bad, float_bad, parse_unsigned-bad,
  apply_value-number, apply_value-float,
}

find_valued-none :
    (arg : Text) (vs : List Valued)
    → All (λ v. same_text arg (name v) ≡ false) vs
    → find_valued arg vs ≡ none
find_valued-none arg [] h = refl
find_valued-none arg (v ∷ vs) h =
    if-eq_of_false (same_text arg (name v)) _ _ (h.0) (find_valued-none arg vs (h.1))

parse_unsigned-empty :
    (w : ℕ) (option : Text)
    → parse_unsigned w [] option ≡ failed (option ++ codes " requires a number")
unfolding parse_unsigned
parse_unsigned-empty w option = refl

parse_loop-missing :
    (w : ℕ) (v : Valued) (o : Options)
    → parse_loop w (name v ∷ []) o ≡ (none, codes "missing value for option " ++ name v)
unfolding parse_loop apply_flag
parse_loop-missing w device o = refl
parse_loop-missing w baud o = refl
parse_loop-missing w scan_timeout o = refl
parse_loop-missing w can_interface o = refl
parse_loop-missing w health_interval o = refl
parse_loop-missing w tcp_port o = refl
parse_loop-missing w min_angle o = refl
parse_loop-missing w max_angle o = refl
parse_loop-missing w max_distance o = refl
parse_loop-missing w min_quality o = refl
parse_loop-missing w min_hits o = refl

apply_flag-none : (arg : Text) (o : Options) → IsUnknown arg → apply_flag arg o ≡ none
unfolding apply_flag
apply_flag-none arg o h =
    if-eq_of_false (same_text arg (codes "--no-reconnect")) _ _ (h.no_flag.0)
      (if-eq_of_false (same_text arg (codes "--no-can")) _ _ (h.no_flag.1) refl)

apply_valued-unknown :
    (w : ℕ) (arg t : Text) (o : Options)
    → IsUnknown arg
    → apply_valued w arg t o ≡ failed (codes "unknown option " ++ arg)
unfolding apply_valued
apply_valued-unknown w arg t o h =
    ap
      (λ r. elim r as (λ z. Outcome Options) [
        | some v ↦ apply_value w v arg t o
        | none ↦ failed (codes "unknown option " ++ arg)
      ])
      (find_valued-none arg all_valued h.no_valued)

-- The last argument has no value.
parse_loop-last :
    (w : ℕ) (arg : Text) (o : Options)
    → IsUnknown arg
    → parse_loop w (arg ∷ []) o ≡ (none, codes "missing value for option " ++ arg)
unfolding parse_loop
parse_loop-last w arg o h =
    if-eq_of_false (is_help arg) _ _ h.no_help (cc (apply_flag-none arg o h))

-- What the loop does with an argument that is no flag.
parse_loop-unknown :
    (w : ℕ) (arg t : Text) (rest : List Text) (o : Options)
    → IsUnknown arg
    → parse_loop w (arg ∷ t ∷ rest) o ≡ (none, codes "unknown option " ++ arg)
unfolding parse_loop
parse_loop-unknown w arg t rest o h =
    if-eq_of_false (is_help arg) _ _ h.no_help
      (cc (apply_flag-none arg o h, apply_valued-unknown w arg t o h))

parse_loop-Stops :
    (w : ℕ) (args : List Text) (error : Text) (o : Options)
    → 32 ≤ w
    → Stops args error
    → parse_loop w args o ≡ (none, error)
unfolding parse_loop
parse_loop-Stops w args error o wide (help_asked []) = refl
parse_loop-Stops w args error o wide (help_asked (t ∷ rest)) = refl
parse_loop-Stops w args error o wide (short_help_asked []) = refl
parse_loop-Stops w args error o wide (short_help_asked (t ∷ rest)) = refl
parse_loop-Stops w args error o wide (value_missing v) = parse_loop-missing w v o
parse_loop-Stops w args error o wide (option_unknown arg t rest h) =
    parse_loop-unknown w arg t rest o h
parse_loop-Stops w args error o wide (last_unknown arg h) = parse_loop-last w arg o h
parse_loop-Stops w args error o wide (number_none v c s rest h n) =
    parse_loop-valued w v (c ∷ s) rest o
    ∙ ap (continued w rest)
        (apply_value-number w v (c ∷ s) _ o h (parse_unsigned-none w c s (name v) n))
parse_loop-Stops w args error o wide (number_empty v rest h) =
    parse_loop-valued w v [] rest o
    ∙ ap (continued w rest) (apply_value-number w v [] _ o h (parse_unsigned-empty w (name v)))
parse_loop-Stops w args error o wide (number_bad v c s rest h d bad) =
    parse_loop-valued w v (c ∷ s) rest o
    ∙ ap (continued w rest)
        (apply_value-number w v (c ∷ s) _ o h (parse_unsigned-bad w c s (name v) wide d bad))
parse_loop-Stops w args error o wide (float_bad v t rest h e) =
    parse_loop-valued w v t rest o ∙ ap (continued w rest) (apply_value-float w v t o h e)

-- At the first of these faults that follows settings written as arguments, parse returns nothing, leaves
-- the error of that fault alone, and looks at no later argument: a request for help, whose error is
-- empty; an option at the end that misses its value; an argument that is no option of the code, be it
-- one that the README lists, and that at the end counts as an option that misses its value; a number
-- with an empty text, with a text that starts neither with a digit nor with a space or a sign, or with
-- one that starts with a digit and is not all digits or does not fit 32 bits; and a float that stof does
-- not read.
pub parse-Stops :
    (w : ℕ) (program : Text) (ss : List Setting) (args rest : List Text) (error : Text)
    → 32 ≤ w
    → AllWritten ss args
    → Stops rest error
    → parse w (program ∷ (args ++ rest)) ≡ (none, error)
unfolding parse
parse-Stops w program ss args rest error wide h stops =
    parse_loop-AllWritten w ss args rest default_options wide h
    ∙ parse_loop-Stops w rest error (configure_all ss default_options) wide stops
