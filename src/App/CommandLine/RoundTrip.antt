-- ===== src/App/CommandLine/RoundTrip.antt =====
-- CommandLine::parse on settings that are written as arguments.
use aeb_node.Prelude.{
  ℕ, suc, ◌-◌, ◌%◌, ◌^◌, ◌≤◌, ◌≡◌, refl, sym, ap, ◌∙◌, ◌&&◌, List, [], ◌∷◌, ◌++◌, Option, none,
  some, leb, arith, if-eq_of_true, append_assoc, append-nil,
}
use native.Mathlib.Nat.{mod-eq_of_lt}
use aeb_node.Prelude.Text.{Text, codes}
use aeb_node.Float32.{Float32}
use aeb_node.Float32.Text.{stof}
use aeb_node.App.Options.{Options, default_options}
use aeb_node.App.CommandLine.{
  Outcome, done, failed, max_numeric_value, parse_unsigned, parse_float, not_valid, apply_flag,
  apply_value, apply_valued, parse_loop, parse, name, Valued, then_set, device, baud, scan_timeout,
  can_interface, health_interval, tcp_port, min_angle, max_angle, max_distance, min_quality,
  min_hits,
}
use aeb_node.App.CommandLine.Numerals.{all_digits, decimal, parse_unsigned_lem}
use aeb_node.App.CommandLine.Settings.{
  baud_is, scan_timeout_is, health_interval_is, port_is, min_quality_is, min_hits_is, min_angle_is,
  max_angle_is, max_distance_is, Setting, configure, configure_all, Numeral, numeral, Written,
  AllWritten, none_written, also_written, no_reconnect_written, no_can_written, device_written,
  interface_written, baud_written, scan_timeout_written, health_interval_written, port_written,
  min_quality_written, min_hits_written, min_angle_written, max_angle_written, max_distance_written,
}

parse_unsigned-Numeral :
    (w b n : ℕ) (t option : Text)
    → 32 ≤ w
    → b ≤ 2 ^ 32 - 1
    → Numeral b n t
    → (parse_unsigned w t option ≡ done n) × (n ≤ b)
parse_unsigned-Numeral w b n t option wide small (numeral c s h k) = (
  parse_unsigned_lem w c s option wide (ground arith)
      ∙ if-eq_of_true (all_digits (c ∷ s) && leb (decimal (c ∷ s)) max_numeric_value) _ _
          (ground arith) refl,
  k,
)

-- What the loop does with the outcome of a valued option.
abbrev pub continued : ℕ → List Text → Outcome Options → Option Options × Text
continued w rest (done o) = parse_loop w rest o
continued w rest (failed error) = (none, error)

continued_lem :
    (w : ℕ) (rest : List Text) (r : Outcome Options)
    → elim r [ done o ↦ parse_loop w rest o | failed error ↦ (none, error) ] ≡ continued w rest r
continued_lem w rest (done o) = refl
continued_lem w rest (failed error) = refl

pub parse_loop-valued :
    (w : ℕ) (v : Valued) (t : Text) (rest : List Text) (o : Options)
    → parse_loop w (name v ∷ t ∷ rest) o ≡ continued w rest (apply_value w v (name v) t o)
unfolding parse_loop apply_flag apply_valued
parse_loop-valued w device t rest o = continued_lem w rest (apply_value w device (name device) t o)
parse_loop-valued w baud t rest o = continued_lem w rest (apply_value w baud (name baud) t o)
parse_loop-valued w scan_timeout t rest o =
    continued_lem w rest (apply_value w scan_timeout (name scan_timeout) t o)
parse_loop-valued w can_interface t rest o =
    continued_lem w rest (apply_value w can_interface (name can_interface) t o)
parse_loop-valued w health_interval t rest o =
    continued_lem w rest (apply_value w health_interval (name health_interval) t o)
parse_loop-valued w tcp_port t rest o =
    continued_lem w rest (apply_value w tcp_port (name tcp_port) t o)
parse_loop-valued w min_angle t rest o =
    continued_lem w rest (apply_value w min_angle (name min_angle) t o)
parse_loop-valued w max_angle t rest o =
    continued_lem w rest (apply_value w max_angle (name max_angle) t o)
parse_loop-valued w max_distance t rest o =
    continued_lem w rest (apply_value w max_distance (name max_distance) t o)
parse_loop-valued w min_quality t rest o =
    continued_lem w rest (apply_value w min_quality (name min_quality) t o)
parse_loop-valued w min_hits t rest o =
    continued_lem w rest (apply_value w min_hits (name min_hits) t o)

-- An option whose value is a number is set to `f n`.
parse_loop-number :
    (w b n : ℕ) (v : Valued) (t : Text) (rest : List Text) (o : Options) (f : ℕ → Options)
    → 32 ≤ w
    → b ≤ 2 ^ 32 - 1
    → Numeral b n t
    → apply_value w v (name v) t o ≡ then_set (parse_unsigned w t (name v)) f
    → parse_loop w (name v ∷ t ∷ rest) o ≡ parse_loop w rest (f n)
parse_loop-number w b n v t rest o f wide small h e =
    parse_loop-valued w v t rest o
    ∙ ap (continued w rest)
        (e ∙ ap (λ r. then_set r f) ((parse_unsigned-Numeral w b n t (name v) wide small h).0))

-- The same where the code narrows the number to a type that holds it.
parse_loop-narrowed :
    (w b n : ℕ) (v : Valued) (t : Text) (rest : List Text) (o : Options) (f : ℕ → Options)
    → 32 ≤ w
    → suc b ≤ 2 ^ 32
    → Numeral b n t
    → apply_value w v (name v) t o ≡ then_set (parse_unsigned w t (name v)) (λ k. f (k % suc b))
    → parse_loop w (name v ∷ t ∷ rest) o ≡ parse_loop w rest (f n)
parse_loop-narrowed w b n v t rest o f wide small h e =
    parse_loop-number w b n v t rest o (λ k. f (k % suc b)) wide (omega arith) h e
    ∙ ap (λ k. parse_loop w rest (f k))
        (mod-eq_of_lt (omega (arith, (parse_unsigned-Numeral w b n t [] wide (omega arith) h).1)))

parse_loop-float :
    (w : ℕ) (x : Float32) (v : Valued) (t : Text) (rest : List Text) (o : Options)
    (f : Float32 → Options)
    → stof t ≡ some x
    → apply_value w v (name v) t o ≡ then_set (parse_float t (name v)) f
    → parse_loop w (name v ∷ t ∷ rest) o ≡ parse_loop w rest (f x)
unfolding parse_float
parse_loop-float w x v t rest o f h e =
    parse_loop-valued w v t rest o
    ∙ ap (continued w rest) (
        e
        ∙ ap
            (λ r.
              then_set
                (elim r as (λ z. Outcome Float32) [
                  | some x ↦ done x
                  | none ↦ failed (not_valid (name v) t (codes "float"))
                ])
                f)
            h)

parse_loop-Written :
    (w : ℕ) (s : Setting) (ws rest : List Text) (o : Options)
    → 32 ≤ w
    → Written s ws
    → parse_loop w (ws ++ rest) o ≡ parse_loop w rest (configure s o)
unfolding parse_loop apply_flag apply_value
parse_loop-Written w s ws [] o wide no_reconnect_written = refl
parse_loop-Written w s ws (arg ∷ rest) o wide no_reconnect_written = refl
parse_loop-Written w s ws [] o wide no_can_written = refl
parse_loop-Written w s ws (arg ∷ rest) o wide no_can_written = refl
parse_loop-Written w s ws rest o wide (device_written t) = parse_loop-valued w device t rest o
parse_loop-Written w s ws rest o wide (interface_written t) =
    parse_loop-valued w can_interface t rest o
parse_loop-Written w s ws rest o wide (baud_written n t h) =
    parse_loop-number w _ n baud t rest o (λ n. configure (baud_is n) o) wide (omega arith) h refl
parse_loop-Written w s ws rest o wide (scan_timeout_written n t h) =
    parse_loop-number w _ n scan_timeout t rest o (λ n. configure (scan_timeout_is n) o) wide
      (omega arith) h refl
parse_loop-Written w s ws rest o wide (health_interval_written n t h) =
    parse_loop-number w _ n health_interval t rest o (λ n. configure (health_interval_is n) o) wide
      (omega arith) h refl
parse_loop-Written w s ws rest o wide (min_hits_written n t h) =
    parse_loop-number w _ n min_hits t rest o (λ n. configure (min_hits_is n) o) wide (omega arith)
      h refl
parse_loop-Written w s ws rest o wide (port_written n t h) =
    parse_loop-narrowed w (2 ^ 16 - 1) n tcp_port t rest o (λ n. configure (port_is n) o) wide
      (omega arith) h refl
parse_loop-Written w s ws rest o wide (min_quality_written n t h) =
    parse_loop-narrowed w (2 ^ 8 - 1) n min_quality t rest o (λ n. configure (min_quality_is n) o)
      wide (omega arith) h refl
parse_loop-Written w s ws rest o wide (min_angle_written x t h) =
    parse_loop-float w x min_angle t rest o (λ x. configure (min_angle_is x) o) h refl
parse_loop-Written w s ws rest o wide (max_angle_written x t h) =
    parse_loop-float w x max_angle t rest o (λ x. configure (max_angle_is x) o) h refl
parse_loop-Written w s ws rest o wide (max_distance_written x t h) =
    parse_loop-float w x max_distance t rest o (λ x. configure (max_distance_is x) o) h refl

-- Whatever follows the settings, the parse goes on with the options that they make.
pub parse_loop-AllWritten :
    (w : ℕ) (ss : List Setting) (args rest : List Text) (o : Options)
    → 32 ≤ w
    → AllWritten ss args
    → parse_loop w (args ++ rest) o ≡ parse_loop w rest (configure_all ss o)
parse_loop-AllWritten w ss args rest o wide none_written = refl
parse_loop-AllWritten w ss args rest o wide (also_written s ss' ws args' h hs) =
    ap (λ r. parse_loop w r o) (append_assoc ws args' rest)
    ∙ parse_loop-Written w s ws (args' ++ rest) o wide h
    ∙ parse_loop-AllWritten w ss' args' rest (configure s o) wide hs

-- Arguments that write settings, numbers within the field's type and floats that stof reads, are
-- parsed into the default options with those settings made in order, and no error; the narrowing of
-- port and quality changes no such number. The width of unsigned long is 32 bits or more.
pub parse-Written :
    (w : ℕ) (program : Text) (ss : List Setting) (args : List Text)
    → 32 ≤ w
    → AllWritten ss args
    → parse w (program ∷ args) ≡ (some (configure_all ss default_options), [])
unfolding parse
parse-Written w program ss args wide h =
    ap (λ r. parse_loop w r default_options) (sym (append-nil args))
    ∙ parse_loop-AllWritten w ss args [] default_options wide h
