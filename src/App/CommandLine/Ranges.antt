-- ===== src/App/CommandLine/Ranges.antt =====
-- The shape of what CommandLine::parse returns: options within their C++ types, or an error.
pub mod Results
use Prim.{tt}
use native.Mathlib.Nat.{mod-lt}
use aeb_node.Prelude.{
  ℕ, ◌<◌, ◌%◌, ◌^◌, ◌≡◌, ◌⊎◌, inl, inr, refl, true, false, ◌||◌, List, [], ◌∷◌, ◌++◌, Option, none,
  some, ltb, if◌then◌else◌, arith, if-of, Holds, Holds-if, not,
}
use aeb_node.Prelude.Int.{ℤ, pos, negsuc}
use aeb_node.Network.Config.{TcpServerConfig}
use aeb_node.Prelude.Text.{Text, codes, is_empty, same_text}
use aeb_node.Float32.{Float32}
use aeb_node.Float32.Text.{stof}
use aeb_node.Float32.Range.{IsFloat, stof-IsFloat}
use aeb_node.Perception.{PerceptionConfig}
use aeb_node.App.Options.{LidarConfig, Options, default_options}
use aeb_node.App.CommandLine.{
  max_numeric_value, Outcome, done, failed, parse_unsigned, parse_float, judged, strtoul, not_valid,
  apply_flag, apply_value, apply_valued, Conversion, parse_loop, parse, is_help, Valued, then_set,
  all_valued, find_valued, device, baud, scan_timeout, can_interface, health_interval, tcp_port,
  min_angle, max_angle, max_distance, min_quality, min_hits,
}

-- The numbers within their C++ types.
abbrev pub LidarInRange : LidarConfig → Type 0
LidarInRange l =
    (l.baudrate < 2 ^ 32)
    × (l.scan_timeout_ms < 2 ^ 32)
    × (l.max_nodes_per_scan < 2 ^ 32)
    × (l.reconnect_delay_ms < 2 ^ 32)

abbrev pub IsInt : ℤ → Type 0
IsInt (pos n) = n < 2 ^ 31
IsInt (negsuc n) = n < 2 ^ 31

abbrev pub ServerInRange : TcpServerConfig → Type 0
ServerInRange s = (s.port < 2 ^ 16) × (s.queue_capacity < 2 ^ 32) × IsInt s.send_buffer_bytes

abbrev pub PerceptionInRange : PerceptionConfig → Type 0
PerceptionInRange p =
    IsFloat p.min_angle_deg
    × IsFloat p.max_angle_deg
    × IsFloat p.max_distance_mm
    × (p.minimum_quality < 2 ^ 8)
    × (p.min_hits_per_sector < 2 ^ 32)

abbrev pub InRange : Options → Type 0
InRange o =
    LidarInRange o.lidar
    × ServerInRange o.tcp_server
    × PerceptionInRange o.perception
    × (o.health_interval_s < 2 ^ 32)

-- A value with a property, or an error text with something in it.
abbrev Done {ℓ} : {A : Type ℓ} → (A → Type 0) → Outcome A → Type 0
Done P (done a) = P a
Done P (failed error) = is_empty error ≡ false

Done-then_set {ℓ κ} :
    {A : Type ℓ} {B : Type κ} (P : A → Type 0) (Q : B → Type 0) (r : Outcome A) (f : A → B)
    → Done P r
    → ((a : A) → P a → Done Q (done (f a)))
    → Done Q (then_set r f)
Done-then_set P Q (done a) f h k = k a h
Done-then_set P Q (failed error) f h k = h

is_empty-append : (s : Text) (c : ℕ) (t : Text) → is_empty (s ++ (c ∷ t)) ≡ false
is_empty-append [] c t = refl
is_empty-append (d ∷ s) c t = refl

not_valid-not_empty : (option t kind : Text) → is_empty (not_valid option t kind) ≡ false
not_valid-not_empty option t kind = is_empty-append option b':' _

judged-fits : (t option : Text) (c : Conversion) → Done (λ n. n < 2 ^ 32) (judged t option c)
judged-fits t option c =
    if-of (Done (λ n. n < 2 ^ 32))
      (c.range_error || not (is_empty c.end) || ltb max_numeric_value c.parsed)
      (failed (not_valid option t (codes "number"))) (done (c.parsed % 2 ^ 32))
      (λ e. not_valid-not_empty option t (codes "number"))
      (λ e. mod-lt c.parsed {m = 2 ^ 32} (omega arith))

parse_unsigned-fits : (w : ℕ) (t option : Text) → Done (λ n. n < 2 ^ 32) (parse_unsigned w t option)
unfolding parse_unsigned
parse_unsigned-fits w t option =
    if-of (Done (λ n. n < 2 ^ 32)) (is_empty t) _ _ (λ e. is_empty-append option b' ' _)
      (λ e. judged-fits t option (strtoul w t))

parse_float-IsFloat : (t option : Text) → Done IsFloat (parse_float t option)
unfolding parse_float
parse_float-IsFloat t option = read (stof t) (stof-IsFloat t)
  where
    read :
        (r : Option Float32)
        → Holds IsFloat r
        → Done IsFloat
            (elim r [ some x ↦ done x | none ↦ failed (not_valid option t (codes "float")) ])
    read (some x) h = h
    read none h = not_valid-not_empty option t (codes "float")

apply_value-InRange :
    (w : ℕ) (v : Valued) (arg t : Text) (o : Options)
    → InRange o
    → Done InRange (apply_value w v arg t o)
unfolding apply_value
apply_value-InRange w device arg t o h = h
apply_value-InRange w baud arg t o h =
    Done-then_set _ InRange (parse_unsigned w t arg) _ (parse_unsigned-fits w t arg)
      (λ n k. ((k, h.0.1, h.0.2, h.0.3), h.1, h.2, h.3))
apply_value-InRange w scan_timeout arg t o h =
    Done-then_set _ InRange (parse_unsigned w t arg) _ (parse_unsigned-fits w t arg)
      (λ n k. ((h.0.0, k, h.0.2, h.0.3), h.1, h.2, h.3))
apply_value-InRange w can_interface arg t o h = h
apply_value-InRange w health_interval arg t o h =
    Done-then_set _ InRange (parse_unsigned w t arg) _ (parse_unsigned-fits w t arg)
      (λ n k. (h.0, h.1, h.2, k))
apply_value-InRange w tcp_port arg t o h =
    Done-then_set _ InRange (parse_unsigned w t arg) _ (parse_unsigned-fits w t arg)
      (λ n k. (h.0, (mod-lt n {m = 2 ^ 16} (omega arith), h.1.1, h.1.2), h.2, h.3))
apply_value-InRange w min_angle arg t o h =
    Done-then_set _ InRange (parse_float t arg) _ (parse_float-IsFloat t arg)
      (λ x k. (h.0, h.1, (k, h.2.1, h.2.2, h.2.3, h.2.4), h.3))
apply_value-InRange w max_angle arg t o h =
    Done-then_set _ InRange (parse_float t arg) _ (parse_float-IsFloat t arg)
      (λ x k. (h.0, h.1, (h.2.0, k, h.2.2, h.2.3, h.2.4), h.3))
apply_value-InRange w max_distance arg t o h =
    Done-then_set _ InRange (parse_float t arg) _ (parse_float-IsFloat t arg)
      (λ x k. (h.0, h.1, (h.2.0, h.2.1, k, h.2.3, h.2.4), h.3))
apply_value-InRange w min_quality arg t o h =
    Done-then_set _ InRange (parse_unsigned w t arg) _ (parse_unsigned-fits w t arg)
      (λ n k. (h.0, h.1, (h.2.0, h.2.1, h.2.2, mod-lt n {m = 2 ^ 8} (omega arith), h.2.4), h.3))
apply_value-InRange w min_hits arg t o h =
    Done-then_set _ InRange (parse_unsigned w t arg) _ (parse_unsigned-fits w t arg)
      (λ n k. (h.0, h.1, (h.2.0, h.2.1, h.2.2, h.2.3, k), h.3))

apply_valued-InRange :
    (w : ℕ) (arg t : Text) (o : Options) → InRange o → Done InRange (apply_valued w arg t o)
unfolding apply_valued
apply_valued-InRange w arg t o h = found (find_valued arg all_valued)
  where
    found :
        (r : Option Valued)
        → Done InRange (elim r [
          | some v ↦ apply_value w v arg t o
          | none ↦ failed (codes "unknown option " ++ arg)
        ])
    found (some v) = apply_value-InRange w v arg t o h
    found none = refl

apply_flag-InRange : (arg : Text) (o : Options) → InRange o → Holds InRange (apply_flag arg o)
unfolding apply_flag
apply_flag-InRange arg o h =
    Holds-if InRange (same_text arg (codes "--no-reconnect"))
      (some (record o { lidar = record o.lidar { auto_reconnect = false } }))
      (if same_text arg (codes "--no-can") then some (record o { no_can = true }) else none)
      (λ e. h)
      (λ e.
        Holds-if InRange (same_text arg (codes "--no-can")) (some (record o { no_can = true })) none
          (λ e. h) (λ e. tt))
