-- ===== src/Cli/Config/Backup.antt =====
-- `read` and then `set`: the backup of a device's parameters.
use go_udap.Prelude.{◌≡◌, map, none, ok, All, false}
use go_udap.Prelude.Bytes.{Bytes}
use go_udap.Prelude.Dict.{Dict}
use go_udap.Cli.Output.{as_pair, is_dropped, filter_read_output, sorted_params, write_text}
use go_udap.Cli.Output.Sorted.{
  keys, as_param, AreDistinct, All-filter_read_output, AreDistinct-filter_read_output,
  All-sorted_params, sorted_params-IsDistinct,
}
use go_udap.Cli.Config.{parse_ini}
use go_udap.Cli.Config.RoundTrip.{IsSettable, parse_ini-write_text}

-- What `read` writes of a device's parameters, `set --config -` reads back as the same names and
-- values, if the parameters have different names and every one that the filter keeps has a canonical
-- name and a value that passes the validation, stands on one line that fits the scanner, and has no
-- white space at its ends.
pub parse_ini-read :
    (m : Dict Bytes)
    → AreDistinct (keys m)
    → All (λ e. is_dropped e.0 e.1 ≡ false → IsSettable (as_param e)) m
    → parse_ini
        (record { content = write_text (sorted_params (filter_read_output m)); failure = none })
      ≡ ok (map as_pair (sorted_params (filter_read_output m)))
parse_ini-read m d h =
    let kept = filter_read_output m in
    let distinct = AreDistinct-filter_read_output m d in
    parse_ini-write_text (sorted_params kept)
      (All-sorted_params IsSettable kept distinct
        (All-filter_read_output (λ e. IsSettable (as_param e)) m h))
      (sorted_params-IsDistinct kept distinct)
