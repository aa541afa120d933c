-- ===== src/App/CommandLine/Usage.antt =====
-- app/CommandLine.cpp: the text that printUsage prints.
use aeb_node.Prelude.{◌≡◌, refl, Bool, true, false, ◌&&◌, ◌||◌, List, [], ◌∷◌, ◌++◌, ◌==◌}
use aeb_node.Prelude.Text.{Text, codes}
use aeb_node.App.CommandLine.{
  Valued, device, baud, scan_timeout, can_interface, health_interval, tcp_port, min_angle,
  max_angle, max_distance, min_quality, min_hits, name,
}

-- Pieces of text, one after the other.
abbrev concat : List Text → Text
concat [] = []
concat (t ∷ ts) = t ++ concat ts

-- `printUsage(program)`: what it writes to the standard output.
unfoldable pub print_usage : Text → Text
print_usage program = concat (
    codes "AEB sensing node\n\n"
    ∷ codes "Usage: "
    ∷ program
    ∷ codes " [options]\n\n"
    ∷ codes "Lidar:\n"
    ∷ codes "  --device PATH           Serial device (default /dev/ttyUSB0)\n"
    ∷ codes "  --baud RATE             Baud rate (default 460800)\n"
    ∷ codes "  --scan-timeout-ms MS    Per-revolution timeout (default 2000)\n"
    ∷ codes "  --no-reconnect          Exit acquisition on device error\n\n"
    ∷ codes "CAN bus:\n"
    ∷ codes "  --can-interface NAME    SocketCAN interface (default can0)\n"
    ∷ codes "  --no-can                Disable CAN output (viewer-only mode)\n\n"
    ∷ codes "Visualisation:\n"
    ∷ codes "  --tcp-port PORT         TCP stream port for lidar_viewer (default 7000)\n\n"
    ∷ codes "Perception (AEB detection):\n"
    ∷ codes "  --min-angle DEG         FOV left  edge in degrees (default -45)\n"
    ∷ codes "  --max-angle DEG         FOV right edge in degrees (default  45)\n"
    ∷ codes "  --max-distance MM       Max range in millimetres   (default 2000)\n"
    ∷ codes "  --min-quality N         Min lidar quality 0-15+    (default 15)\n"
    ∷ codes "  --min-hits N            Min points per sector to declare obstacle (default 3)\n\n"
    ∷ codes "Diagnostics:\n"
    ∷ codes "  --health-interval SEC   Health report period, 0 disables (default 5)\n"
    ∷ codes "  -h, --help              Show this message\n"
    ∷ [])

abbrev starts_with : Text → Text → Bool
starts_with s [] = true
starts_with [] (d ∷ t) = false
starts_with (c ∷ s) (d ∷ t) = c == d && starts_with s t

abbrev mentions : Text → Text → Bool
mentions [] t = starts_with [] t
mentions (c ∷ s) t = starts_with (c ∷ s) t || mentions s t

-- The usage text names every option with a value that the parser knows.
usage-mentions : (v : Valued) → mentions (print_usage (codes "aeb_node")) (name v) ≡ true
unfolding print_usage
usage-mentions device = refl
usage-mentions baud = refl
usage-mentions scan_timeout = refl
usage-mentions can_interface = refl
usage-mentions health_interval = refl
usage-mentions tcp_port = refl
usage-mentions min_angle = refl
usage-mentions max_angle = refl
usage-mentions max_distance = refl
usage-mentions min_quality = refl
usage-mentions min_hits = refl
