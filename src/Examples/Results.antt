-- ===== src/Examples/Results.antt =====
-- The CSV and JSON forms of results at concrete inputs.
use go_udap.Prelude.{◌≤◌, ◌≡◌, [], ◌∷◌, map, none, some, length, arith}
use go_udap.Prelude.Bytes.{Bytes, codes}
use go_udap.Go.Csv.Reader.{read_csv}
use go_udap.Go.Json.{Json}
use go_udap.Go.Json.Reader.{read_json}
use go_udap.Go.Json.RoundTrip.{IsAsciiJson}
use go_udap.Udap.Discovery.{Device, blank_device}
use go_udap.Udap.Mac.{Mac}
use go_udap.Cli.Output.Formats.{csv, json}
use go_udap.Cli.Output.Render.{render, cell_text}
use go_udap.Cli.Output.Render.Csv.{AreAligned}
use go_udap.Cli.Results.{Answer, params, details, rendering, param_fields}
use go_udap.Cli.Results.Tables.{rendering-AreAligned, read_csv-render}
use go_udap.Cli.Results.Objects.{json_records, csv_records, read_json-render}

abbrev receiver : Mac
receiver = record { b0 = 0; b1 = 4; b2 = 32; b3 = 0; b4 = 0; b5 = 1 }

abbrev named : Device
named = record (blank_device receiver (codes "10.0.0.2") 0) { name = codes "attic, \"left\"" }

-- A device without an answer to get_ip, and one with it.
abbrev found : Answer
found = details (
    record { device = named; network = none }
    ∷ record {
      device = blank_device receiver [] 0;
      network = some (record { ip = 10 ∷ 0 ∷ 0 ∷ 2 ∷ []; subnet_mask = []; gateway = [] });
    }
    ∷ [])

rendering-AreAligned_example :
    (1 ≤ length (rendering found).csv_header)
    × AreAligned (length (rendering found).csv_header) (rendering found).csv_rows
rendering-AreAligned_example = rendering-AreAligned found

read_csv-render_example :
    (out : Bytes) × (render csv (rendering found) ≡ some out)
    × (read_csv out ≡ (rendering found).csv_header ∷ map (map cell_text) (rendering found).csv_rows)
read_csv-render_example = read_csv-render found

abbrev listed : Answer
listed = params (
    record { name = codes "hostname"; value = codes "a <b> \"c\"" }
    ∷ record { name = codes "den"; value = [] }
    ∷ [])

ascii : IsAsciiJson (rendering listed).json_value
unfolding rendering param_fields
ascii = ground arith

read_json-render_example :
    (out : Bytes) × (render json (rendering listed) ≡ some out)
    × (v : Json) × (read_json out ≡ some (v, b'\n' ∷ []))
    × (json_records v ≡ csv_records listed)
read_json-render_example = read_json-render listed ascii tt
