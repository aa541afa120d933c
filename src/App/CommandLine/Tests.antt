-- ===== src/App/CommandLine/Tests.antt =====
-- Command lines, good and bad ones.
use aeb_node.Prelude.{◌≡◌, refl, inl, List, [], ◌∷◌, ◌++◌, some, none, arith}
use aeb_node.Prelude.Text.{Text, codes}
use aeb_node.Float32.Text.{stof}
use aeb_node.App.Options.{default_options}
use aeb_node.App.CommandLine.{
  done, failed, parse_unsigned, parse, tcp_port, apply_flag, apply_valued, apply_value,
}
use aeb_node.App.CommandLine.Numerals.{parse_unsigned_lem}
use aeb_node.App.CommandLine.Settings.{
  Setting, baud_is, no_reconnect, min_angle_is, port_is, configure_all, numeral, AllWritten,
  none_written, also_written, baud_written, no_reconnect_written, min_angle_written, port_written,
}
use aeb_node.App.CommandLine.RoundTrip.{parse-Written}
use aeb_node.App.CommandLine.Errors.{number_bad}
use aeb_node.App.CommandLine.Errors.First.{parse-Stops}
use aeb_node.App.CommandLine.Ranges.Results.{IsResult, parse-IsResult}

parse_unsigned_lem_example :
    parse_unsigned 64 (codes "8OOO") (codes "--tcp-port")
    ≡ failed (codes "--tcp-port: '8OOO' is not a valid number")
parse_unsigned_lem_example =
    parse_unsigned_lem 64 b'8' (codes "OOO") (codes "--tcp-port") (omega arith) refl

abbrev settings : List Setting
settings = no_reconnect ∷ baud_is 115200 ∷ min_angle_is 0xc1f0_0000 ∷ port_is 7001 ∷ []

abbrev arguments : List Text
arguments =
    codes "--no-reconnect"
    ∷ codes "--baud"
    ∷ codes "0115200"
    ∷ codes "--min-angle"
    ∷ codes "-30"
    ∷ codes "--tcp-port"
    ∷ codes "7001"
    ∷ []

settings_written : AllWritten settings arguments
unfolding stof
settings_written = also_written _ _ _ _ no_reconnect_written (
    also_written _ _ _ _ (baud_written _ _ (numeral b'0' (codes "115200") refl (omega arith))) (
      also_written _ _ _ _ (min_angle_written _ (codes "-30") refl) (
        also_written _ _ _ _ (port_written _ _ (numeral b'7' (codes "001") refl (omega arith)))
          none_written)))

parse-Written_example :
    parse 64 (codes "aeb_node" ∷ arguments) ≡ (some (configure_all settings default_options), [])
parse-Written_example =
    parse-Written 64 (codes "aeb_node") settings arguments (omega arith) settings_written

parse-Stops_example :
    parse 64
      (codes "aeb_node" ∷ (arguments ++ (codes "--tcp-port" ∷ codes "70 00" ∷ codes "-h" ∷ [])))
    ≡ (none, codes "--tcp-port: '70 00' is not a valid number")
parse-Stops_example =
    parse-Stops 64 (codes "aeb_node") settings arguments
      (codes "--tcp-port" ∷ codes "70 00" ∷ codes "-h" ∷ []) _ (omega arith) settings_written
      (number_bad tcp_port b'7' (codes "0 00") (codes "-h" ∷ []) refl refl (inl refl))

parse-IsResult_example :
    IsResult (codes "--baud" ∷ []) (parse 64 (codes "aeb_node" ∷ codes "--baud" ∷ []))
parse-IsResult_example = parse-IsResult 64 (codes "aeb_node") (codes "--baud" ∷ [])

-- A port that does not fit 16 bits is taken modulo 65536.
port_wraps :
    parse 64 (codes "aeb_node" ∷ codes "--tcp-port" ∷ codes "65537" ∷ [])
    ≡ (some (configure_all (port_is 1 ∷ []) default_options), [])
unfolding parse apply_flag apply_valued apply_value parse_unsigned
port_wraps = refl

-- strtoul takes spaces and signs.
plus_sign : parse_unsigned 64 (codes " +7") [] ≡ done 7
unfolding parse_unsigned
plus_sign = refl

minus_one : parse_unsigned 32 (codes "-1") [] ≡ done 0xFFFF_FFFF
unfolding parse_unsigned
minus_one = refl

minus_large : parse_unsigned 64 (codes "-18446744073709551615") [] ≡ done 1
unfolding parse_unsigned
minus_large = refl
