-- ===== src/App/CommandLine/Settings.antt =====
-- Settings apart from the argument vector: the arguments that CommandLine::parse takes for them, and
-- what they make of the options.
use aeb_node.Prelude.{ℕ, ◌-◌, ◌^◌, ◌≤◌, ◌≡◌, true, false, List, [], ◌∷◌, ◌++◌, some}
use aeb_node.Prelude.Text.{Text, codes}
use aeb_node.Float32.{Float32}
use aeb_node.Float32.Text.{stof}
use aeb_node.App.Options.{Options}
use aeb_node.App.CommandLine.Numerals.{all_digits, decimal}

pub data Setting : Type 0 where
  no_reconnect disable_can : Setting
  device_is interface_is : Text → Setting
  baud_is scan_timeout_is health_interval_is port_is min_quality_is min_hits_is : ℕ → Setting
  min_angle_is max_angle_is max_distance_is : Float32 → Setting

abbrev pub configure : Setting → Options → Options
configure no_reconnect o = record o { lidar = record o.lidar { auto_reconnect = false } }
configure disable_can o = record o { no_can = true }
configure (device_is t) o = record o { lidar = record o.lidar { serial_port = t } }
configure (interface_is t) o = record o { canbus = record { interface = t } }
configure (baud_is n) o = record o { lidar = record o.lidar { baudrate = n } }
configure (scan_timeout_is n) o = record o { lidar = record o.lidar { scan_timeout_ms = n } }
configure (health_interval_is n) o = record o { health_interval_s = n }
configure (port_is n) o = record o { tcp_server = record o.tcp_server { port = n } }
configure (min_quality_is n) o = record o {
  perception = record o.perception { minimum_quality = n };
}
configure (min_hits_is n) o = record o {
  perception = record o.perception { min_hits_per_sector = n };
}
configure (min_angle_is x) o = record o { perception = record o.perception { min_angle_deg = x } }
configure (max_angle_is x) o = record o { perception = record o.perception { max_angle_deg = x } }
configure (max_distance_is x) o = record o {
  perception = record o.perception { max_distance_mm = x };
}

-- The later of two settings of one option counts.
abbrev pub configure_all : List Setting → Options → Options
configure_all [] o = o
configure_all (s ∷ ss) o = configure_all ss (configure s o)

-- A nonempty decimal numeral of value `n`, at most `bound`.
pub data Numeral (bound : ℕ) : ℕ → Text → Type 0 where
  numeral :
      (c : ℕ) (s : Text)
      → all_digits (c ∷ s) ≡ true
      → decimal (c ∷ s) ≤ bound
      → Numeral bound (decimal (c ∷ s)) (c ∷ s)

-- The arguments that a setting is written as.
pub data Written : Setting → List Text → Type 0 where
  no_reconnect_written : Written no_reconnect (codes "--no-reconnect" ∷ [])
  no_can_written : Written disable_can (codes "--no-can" ∷ [])
  device_written : (t : Text) → Written (device_is t) (codes "--device" ∷ t ∷ [])
  interface_written : (t : Text) → Written (interface_is t) (codes "--can-interface" ∷ t ∷ [])
  baud_written :
      (n : ℕ) (t : Text) → Numeral (2 ^ 32 - 1) n t → Written (baud_is n) (codes "--baud" ∷ t ∷ [])
  scan_timeout_written :
      (n : ℕ) (t : Text)
      → Numeral (2 ^ 32 - 1) n t
      → Written (scan_timeout_is n) (codes "--scan-timeout-ms" ∷ t ∷ [])
  health_interval_written :
      (n : ℕ) (t : Text)
      → Numeral (2 ^ 32 - 1) n t
      → Written (health_interval_is n) (codes "--health-interval" ∷ t ∷ [])
  port_written :
      (n : ℕ) (t : Text)
      → Numeral (2 ^ 16 - 1) n t
      → Written (port_is n) (codes "--tcp-port" ∷ t ∷ [])
  min_quality_written :
      (n : ℕ) (t : Text)
      → Numeral (2 ^ 8 - 1) n t
      → Written (min_quality_is n) (codes "--min-quality" ∷ t ∷ [])
  min_hits_written :
      (n : ℕ) (t : Text)
      → Numeral (2 ^ 32 - 1) n t
      → Written (min_hits_is n) (codes "--min-hits" ∷ t ∷ [])
  min_angle_written :
      (x : Float32) (t : Text)
      → stof t ≡ some x
      → Written (min_angle_is x) (codes "--min-angle" ∷ t ∷ [])
  max_angle_written :
      (x : Float32) (t : Text)
      → stof t ≡ some x
      → Written (max_angle_is x) (codes "--max-angle" ∷ t ∷ [])
  max_distance_written :
      (x : Float32) (t : Text)
      → stof t ≡ some x
      → Written (max_distance_is x) (codes "--max-distance" ∷ t ∷ [])

pub data AllWritten : List Setting → List Text → Type 0 where
  none_written : AllWritten [] []
  also_written :
      (s : Setting) (ss : List Setting) (ws args : List Text)
      → Written s ws
      → AllWritten ss args
      → AllWritten (s ∷ ss) (ws ++ args)
