-- ===== src/Cli/Output/Formats.antt =====
-- cli/output/format.go: the names of the output formats.
use go_udap.Prelude.{◌≡◌, refl, Option, none, some, if◌then◌else◌}
use go_udap.Prelude.Bytes.{Bytes, codes, bytes_eq}

-- `Format`
pub data Format : Type 0 where
  text json csv : Format

-- `Format.String`
unfoldable pub format_name : Format → Bytes
format_name text = codes "text"
format_name json = codes "json"
format_name csv = codes "csv"

-- `Format.Set`: the loop over the names.
unfoldable pub set_format : Bytes → Option Format
unfolding format_name
set_format value =
    if bytes_eq value (format_name text)
    then some text
    else if bytes_eq value (format_name json)
    then some json
    else if bytes_eq value (format_name csv)
    then some csv
    else none

-- A name is accepted exactly as the format that it prints.
set_format-format_name : (f : Format) → set_format (format_name f) ≡ some f
unfolding set_format format_name bytes_eq
set_format-format_name text = refl
set_format-format_name json = refl
set_format-format_name csv = refl
