-- ===== src/Examples/Ini.antt =====
-- Config files at concrete inputs.
use go_udap.Prelude.{◌≡◌, refl, [], ◌∷◌, map, none, some, true, false, ok, err, inr, arith}
use go_udap.Prelude.Bytes.{Bytes, bytes_eq, codes}
use go_udap.Prelude.Dict.{Dict, get, put, or_else}
use go_udap.Go.Strings.{has_prefix, cut_at}
use go_udap.Go.Strconv.{parse_uint}
use go_udap.Go.NetIp.{parse_ip, to4}
use go_udap.Go.Utf8.{decode_rune}
use go_udap.Go.Space.{trim_space, is_space, last_rune}
use go_udap.Go.Lines.{scan_lines, split_lines, fitting, drop_cr}
use go_udap.Udap.Parameters.Table.{Parameter, parameters, parameter_index, parameter_by_name}
use go_udap.Udap.Validation.{validate_parameter, type_rule, name_rule, is_valid_ip}
use go_udap.Cli.Source.{SourceInputs, merge_sources, some_parameters}
use go_udap.Cli.Source.Restore.{backup, merge_sources-read}
use go_udap.Cli.Output.{as_pair, is_dropped, filter_read_output, sorted_params, write_text}
use go_udap.Cli.Config.Lines.{IsEdged, IsEdged-IsTrimmed}
use go_udap.Cli.Config.RoundTrip.{IsSettable}
use go_udap.Cli.Config.Backup.{parse_ini-read}
use go_udap.Cli.Config.{
  parse_ini, parse_lines, parse_line, parse_entry, clashes, missing_separator, same_parameter,
}

parse_tests :
    (parse_ini
        (record { content = codes "# c\n hostname = den \r\n\nlan_ip_mode=1"; failure = none })
      ≡ ok ((codes "hostname", codes "den") ∷ (codes "lan_ip_mode", codes "1") ∷ []))
    × (parse_ini (record { content = codes "hostname"; failure = none })
        ≡ err (missing_separator 1))
    × (parse_ini (record {
      content = codes "slimserver_address=10.0.0.1\nserver_address=10.0.0.2";
      failure = none;
    })
        ≡ err (
            same_parameter 2
              (codes "slimserver_address")
              (codes "server_address")
              (codes "server_address")))
unfolding parse_ini parse_lines scan_lines fitting split_lines parse_line trim_space drop_cr
    is_space decode_rune last_rune has_prefix cut_at parse_entry parameter_by_name parameter_index
    parameters validate_parameter type_rule name_rule is_valid_ip parse_uint parse_ip to4 bytes_eq
    get put clashes
parse_tests = (refl, refl, refl)

-- A player with a name, and with the factory's network mode.
abbrev player : Dict Bytes
player = (codes "hostname", codes "den") ∷ (codes "lan_ip_mode", codes "1") ∷ []

abbrev hostname : Parameter
hostname = record {
  name = codes "hostname";
  offset = 17;
  len = 33;
  placeholder = codes "NAME";
  help = codes "Device hostname (max 33 chars)";
  factory_default = [];
}

hostname_known : parameter_by_name (codes "hostname") ≡ some hostname
unfolding parameter_by_name parameter_index parameters
hostname_known = refl

hostname_valid : validate_parameter (codes "hostname") (codes "den") ≡ ok tt
unfolding validate_parameter type_rule name_rule parameter_by_name parameter_index parameters
hostname_valid = refl

den-IsEdged : IsEdged (codes "den")
den-IsEdged = record {
  first = b'd';
  behind = codes "en";
  before = codes "de";
  last = b'n';
  from_first = refl;
  to_last = refl;
  first_visible = (omega arith, omega arith);
  last_visible = (omega arith, omega arith);
}

hostname-IsSettable : IsSettable (record { name = codes "hostname"; value = codes "den" })
hostname-IsSettable = record {
  parameter = hostname;
  known = hostname_known;
  canonical = refl;
  valid = hostname_valid;
  trimmed = inr (IsEdged-IsTrimmed (codes "den") den-IsEdged);
  one_line = ground arith;
  short = omega arith;
}

mode_dropped : is_dropped (codes "lan_ip_mode") (codes "1") ≡ true
unfolding is_dropped parameter_by_name parameter_index parameters has_prefix bytes_eq
mode_dropped = refl

names_apart : bytes_eq (codes "hostname") (codes "lan_ip_mode") ≡ false
unfolding bytes_eq
names_apart = refl

parse_ini-read_example :
    parse_ini
      (record { content = write_text (sorted_params (filter_read_output player)); failure = none })
    ≡ ok (map as_pair (sorted_params (filter_read_output player)))
parse_ini-read_example =
    parse_ini-read player ((names_apart, tt), (tt, tt))
      (λ _. hostname-IsSettable, (λ h. absurd (ground (arith, mode_dropped)), tt))

-- The backup on standard input, and one flag.
abbrev restoring : SourceInputs
restoring = record {
  file_content = some (backup player);
  file_label = codes "-";
  stdin_content = none;
  stdin_piped = true;
  flags = (codes "lan_ip_mode", codes "0") ∷ [];
}

merge_sources-read_example :
    (merged : Dict Bytes) × ((merge_sources restoring).0 ≡ some_parameters merged)
    × ((k : Bytes)
        → get k merged ≡ or_else (get k restoring.flags) (get k (filter_read_output player)))
merge_sources-read_example =
    merge_sources-read player restoring ((names_apart, tt), (tt, tt))
      (λ _. hostname-IsSettable, (λ h. absurd (ground (arith, mode_dropped)), tt)) refl
