-- ===== src/Cli/Output/Render.antt =====
-- cli/output/render.go and the choice of the format in cli/format.go: a result as the bytes that are
-- written in each format.
pub mod Csv
use go_udap.Prelude.{
  ◌≡◌, refl, Bool, true, false, List, [], ◌∷◌, ◌++◌, map, Option, none, some, if◌then◌else◌, length,
  replicate,
}
use go_udap.Prelude.Bytes.{Bytes, codes}
use go_udap.Go.Csv.{csv_line}
use go_udap.Go.Json.{Json, marshal}
use go_udap.Cli.Output.Formats.{Format, text, json, csv}

-- `Result`: what its four methods return.
pub record Rendering : Type 0 where
  pub written_text : Bytes
  pub json_value : Json
  pub csv_header : List Bytes
  pub csv_rows : List (List (Option Bytes))

abbrev pub cell_text : Option Bytes → Bytes
cell_text none = []
cell_text (some s) = s

abbrev pub onto : Bytes → Option (List Bytes) → Option (List Bytes)
onto c none = none
onto c (some r) = some (c ∷ r)

-- The loop over a row: it overwrites the record, and panics behind its end.
unfoldable pub fill_record : List (Option Bytes) → List Bytes → Option (List Bytes)
fill_record [] record_ = some record_
fill_record (cell ∷ cells) [] = none
fill_record (cell ∷ cells) (old ∷ record_) = onto (cell_text cell) (fill_record cells record_)

abbrev pub line_and : Option Bytes → List Bytes → Option Bytes
line_and none r = none
line_and (some more) r = some (csv_line r ++ more)

-- The loop over the rows, which all go through one record.
unfoldable pub render_rows : List (List (Option Bytes)) → List Bytes → Option Bytes
unfolding fill_record
render_rows [] record_ = some []
render_rows (row ∷ rows) record_ = elim (fill_record row record_) [
  | none ↦ none
  | some r ↦ line_and (render_rows rows r) r
]

-- `renderCSV`; a panic is `none`.
unfoldable pub render_csv : List Bytes → List (List (Option Bytes)) → Option Bytes
unfolding render_rows
render_csv header rows = line_and (render_rows rows (replicate (length header) [])) header

-- `renderJSON`; no value is a nil slice.
unfoldable pub render_json : Json → Bytes
render_json v = marshal v ++ b'\n' ∷ []

-- `Render`
unfoldable pub render : Format → Rendering → Option Bytes
unfolding render_json render_csv
render text r = some r.written_text
render json r = some (render_json r.json_value)
render csv r = render_csv r.csv_header r.csv_rows

-- `selectedFormat`
unfoldable pub selected_format : Bool → Format → Format
selected_format flag_json flag_format = if flag_json then json else flag_format
