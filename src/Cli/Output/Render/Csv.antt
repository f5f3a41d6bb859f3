-- ===== src/Cli/Output/Render/Csv.antt =====
-- The CSV form of a result, read back.
use go_udap.Prelude.{
  ℕ, ◌≤◌, ◌≡◌, refl, sym, length-map, ap, ◌∙◌, List, [], ◌∷◌, ◌++◌, map, Option, some, length,
  length-replicate, replicate, All, arith,
}
use go_udap.Prelude.Bytes.{Bytes}
use go_udap.Go.Csv.{csv_line}
use go_udap.Go.Csv.Reader.{start, read_from, read_csv, read_from-csv_line}
use go_udap.Cli.Output.Render.{cell_text, fill_record, render_rows, render_csv}

-- The rows have a cell for every column.
abbrev pub AreAligned : ℕ → List (List (Option Bytes)) → Type 0
AreAligned n rows = All (λ row. length row ≡ n) rows

-- A row as long as the record replaces all of it.
fill_record_whole :
    (row : List (Option Bytes)) (old : List Bytes)
    → length row ≡ length old
    → fill_record row old ≡ some (map cell_text row)
unfolding fill_record
fill_record_whole [] [] h = refl
fill_record_whole [] (o ∷ old) h = absurd (omega arith)
fill_record_whole (c ∷ row) [] h = absurd (omega arith)
fill_record_whole (c ∷ row) (o ∷ old) h = rw (fill_record_whole row old (omega arith)) refl

render_rows_step :
    (row : List (Option Bytes)) (rows : List (List (Option Bytes))) (old r : List Bytes)
    (out : Bytes)
    → fill_record row old ≡ some r
    → render_rows rows r ≡ some out
    → render_rows (row ∷ rows) old ≡ some (csv_line r ++ out)
unfolding render_rows
render_rows_step row rows old r out e f = rw (e, render_rows) (rw f refl)

module _ (n : ℕ) (ne : 1 ≤ n) where
  read_line :
      (r : List Bytes) (rest : Bytes)
      → length r ≡ n
      → read_from start (csv_line r ++ rest) ≡ r ∷ read_from start rest
  read_line [] rest h = absurd (omega arith)
  read_line (f ∷ fs) rest h = read_from-csv_line f fs rest

  record_width : (row : List (Option Bytes)) → length row ≡ n → length (map cell_text row) ≡ n
  record_width row h = length-map row cell_text ∙ h

  -- The rows that are written are read back.
  read_rows :
      (rows : List (List (Option Bytes))) (old : List Bytes)
      → length old ≡ n
      → AreAligned n rows
      → (out : Bytes) × (render_rows rows old ≡ some out)
        × (read_from start out ≡ map (map cell_text) rows)
  unfolding render_rows read_from
  read_rows [] old h a = ([], refl, refl)
  read_rows (row ∷ rows) old h (w, a) =
      let (out, e, back) = read_rows rows (map cell_text row) (record_width row w) a in
      (
        csv_line (map cell_text row) ++ out,
        render_rows_step row rows old _ out (fill_record_whole row old (w ∙ sym h)) e,
        read_line (map cell_text row) out (record_width row w)
            ∙ ap (λ t. map cell_text row ∷ t) back,
      )

-- A result whose rows have a cell for every column is written without a panic, and a reader of CSV
-- finds the header and then the rows, with empty fields for the cells that are null.
pub read_csv-render_csv :
    (header : List Bytes) (rows : List (List (Option Bytes)))
    → 1 ≤ length header
    → AreAligned (length header) rows
    → (out : Bytes) × (render_csv header rows ≡ some out)
      × (read_csv out ≡ header ∷ map (map cell_text) rows)
unfolding render_csv read_csv
read_csv-render_csv header rows ne a =
    let (out, e, back) =
      read_rows (length header) ne rows (replicate (length header) [])
        (length-replicate (length header) []) a in
    (
      csv_line header ++ out,
      rw e refl,
      read_line (length header) ne header out refl ∙ ap (λ t. header ∷ t) back,
    )
