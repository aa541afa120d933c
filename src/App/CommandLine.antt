-- ===== src/App/CommandLine.antt =====
-- app/CommandLine.cpp, with the strtoul of the standard library. Texts are lists of octets, and the
-- error texts are the code's. `long_bits` is the width of unsigned long. What printUsage prints is
-- left out.
pub mod Numerals
pub mod Settings
pub mod RoundTrip
pub mod Errors
pub mod Ranges
pub mod Usage
mod Tests
use aeb_node.Prelude.{
  ℕ, zero, suc, ◌+◌, ◌-◌, ◌*◌, ◌%◌, ◌^◌, Bool, true, false, not, ◌&&◌, ◌||◌, List, [], ◌∷◌, ◌++◌,
  Option, none, some, ltb, leb, ◌==◌, if◌then◌else◌,
}
use aeb_node.Prelude.Text.{Text, codes, is_empty, same_text}
use aeb_node.Perception.{PerceptionConfig}
use aeb_node.Float32.{Float32}
use aeb_node.Float32.Text.{stof, skip_spaces, read_sign, Digits, more_digits}
use aeb_node.Network.Config.{TcpServerConfig}
use aeb_node.App.Options.{LidarConfig, CanBusConfig, Options, default_options}

-- What a step of the parse comes to: a value, or the text put in `error`.
pub data Outcome {ℓ} (A : Type ℓ) : Type ℓ where
  done : A → Outcome A
  failed : Text → Outcome A

abbrev pub max_numeric_value : ℕ
max_numeric_value = 0xFFFF_FFFF

-- A result of strtoul: its value, `errno != 0`, and the text from `end` on.
pub record Conversion : Type 0 where
  pub parsed : ℕ
  pub range_error : Bool
  pub end : Text

-- A minus negates the value modulo the width; without a digit nothing is read.
abbrev pub converted : ℕ → Text → Bool → Digits → Conversion
converted long_bits text negative digits =
    if digits.count == 0
    then record { parsed = 0; range_error = false; end = text }
    else if leb (2 ^ long_bits) digits.value
    then record { parsed = 2 ^ long_bits - 1; range_error = true; end = digits.rest }
    else if negative
    then record {
      parsed = (2 ^ long_bits - digits.value) % 2 ^ long_bits;
      range_error = false;
      end = digits.rest;
    }
    else record { parsed = digits.value; range_error = false; end = digits.rest }

-- `std::strtoul(text, &end, 10)`
unfoldable pub strtoul : ℕ → Text → Conversion
strtoul long_bits text =
    let (negative, s) = read_sign (skip_spaces text) in
    converted long_bits text negative (more_digits 10 0 0 s)

-- ": '" + text + "' is not a valid "
abbrev pub not_valid : Text → Text → Text → Text
not_valid option text kind =
    option ++ (codes ": '" ++ (text ++ (codes "' is not a valid " ++ kind)))

-- The tests after the conversion.
abbrev pub judged : Text → Text → Conversion → Outcome ℕ
judged text option c =
    if c.range_error || not (is_empty c.end) || ltb max_numeric_value c.parsed
    then failed (not_valid option text (codes "number"))
    else done (c.parsed % 2 ^ 32)

-- `parseUnsigned(text, out, error, option)`
unfoldable pub parse_unsigned : ℕ → Text → Text → Outcome ℕ
unfolding strtoul
parse_unsigned long_bits text option =
    if is_empty text
    then failed (option ++ codes " requires a number")
    else judged text option (strtoul long_bits text)

-- The `try` around stof.
unfoldable pub parse_float : Text → Text → Outcome Float32
parse_float text option = elim (stof text) [
  | some x ↦ done x
  | none ↦ failed (not_valid option text (codes "float"))
]

abbrev pub then_set {ℓ κ} : {A : Type ℓ} {B : Type κ} → Outcome A → (A → B) → Outcome B
then_set (done a) f = done (f a)
then_set (failed error) f = failed error

-- `applyFlag(arg, out)`; `none`: not recognised.
unfoldable pub apply_flag : Text → Options → Option Options
apply_flag arg out =
    if same_text arg (codes "--no-reconnect")
    then some (record out { lidar = record out.lidar { auto_reconnect = false } })
    else if same_text arg (codes "--no-can")
    then some (record out { no_can = true })
    else none

-- The options that take a value, in the order of the tests.
pub data Valued : Type 0 where
  device baud scan_timeout can_interface health_interval tcp_port : Valued
  min_angle max_angle max_distance min_quality min_hits : Valued

abbrev pub name : Valued → Text
name device = codes "--device"
name baud = codes "--baud"
name scan_timeout = codes "--scan-timeout-ms"
name can_interface = codes "--can-interface"
name health_interval = codes "--health-interval"
name tcp_port = codes "--tcp-port"
name min_angle = codes "--min-angle"
name max_angle = codes "--max-angle"
name max_distance = codes "--max-distance"
name min_quality = codes "--min-quality"
name min_hits = codes "--min-hits"

abbrev pub all_valued : List Valued
all_valued =
    device ∷ baud ∷ scan_timeout ∷ can_interface ∷ health_interval ∷ tcp_port ∷ min_angle
    ∷ max_angle ∷ max_distance ∷ min_quality ∷ min_hits ∷ []

abbrev pub find_valued : Text → List Valued → Option Valued
find_valued arg [] = none
find_valued arg (v ∷ vs) = if same_text arg (name v) then some v else find_valued arg vs

-- The branch of one option in `applyValued`.
unfoldable pub apply_value : ℕ → Valued → Text → Text → Options → Outcome Options
apply_value w device arg value out =
    done (record out { lidar = record out.lidar { serial_port = value } })
apply_value w baud arg value out =
    then_set (parse_unsigned w value arg)
      (λ n. record out { lidar = record out.lidar { baudrate = n } })
apply_value w scan_timeout arg value out =
    then_set (parse_unsigned w value arg)
      (λ n. record out { lidar = record out.lidar { scan_timeout_ms = n } })
apply_value w can_interface arg value out =
    done (record out { canbus = record { interface = value } })
apply_value w health_interval arg value out =
    then_set (parse_unsigned w value arg) (λ n. record out { health_interval_s = n })
apply_value w tcp_port arg value out =
    then_set (parse_unsigned w value arg)
      (λ n. record out { tcp_server = record out.tcp_server { port = n % 2 ^ 16 } })
apply_value w min_angle arg value out =
    then_set (parse_float value arg)
      (λ x. record out { perception = record out.perception { min_angle_deg = x } })
apply_value w max_angle arg value out =
    then_set (parse_float value arg)
      (λ x. record out { perception = record out.perception { max_angle_deg = x } })
apply_value w max_distance arg value out =
    then_set (parse_float value arg)
      (λ x. record out { perception = record out.perception { max_distance_mm = x } })
apply_value w min_quality arg value out =
    then_set (parse_unsigned w value arg)
      (λ n. record out { perception = record out.perception { minimum_quality = n % 2 ^ 8 } })
apply_value w min_hits arg value out =
    then_set (parse_unsigned w value arg)
      (λ n. record out { perception = record out.perception { min_hits_per_sector = n } })

-- `applyValued(arg, value, out, error)`
unfoldable pub apply_valued : ℕ → Text → Text → Options → Outcome Options
apply_valued w arg value out = elim (find_valued arg all_valued) [
  | some v ↦ apply_value w v arg value out
  | none ↦ failed (codes "unknown option " ++ arg)
]

abbrev pub is_help : Text → Bool
is_help arg = same_text arg (codes "--help") || same_text arg (codes "-h")

-- The loop over `argv[i:]`: what `parse` returns, and `error`.
unfoldable pub parse_loop : ℕ → List Text → Options → Option Options × Text
parse_loop w [] options = (some options, [])
parse_loop w (arg ∷ []) options =
    if is_help arg then (none, []) else elim (apply_flag arg options) [
      | some options' ↦ (some options', [])
      | none ↦ (none, codes "missing value for option " ++ arg)
    ]
parse_loop w (arg ∷ value ∷ rest) options =
    if is_help arg then (none, []) else elim (apply_flag arg options) [
      | some options' ↦ parse_loop w (value ∷ rest) options'
      | none ↦ elim (apply_valued w arg value options) [
        | done options' ↦ parse_loop w rest options'
        | failed error ↦ (none, error)
      ]
    ]

-- `CommandLine::parse(argc, argv, error)`: the options, and the error.
unfoldable pub parse : ℕ → List Text → Option Options × Text
unfolding parse_loop
parse w [] = (some default_options, [])
parse w (program ∷ args) = parse_loop w args default_options
