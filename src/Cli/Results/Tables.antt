-- ===== src/Cli/Results/Tables.antt =====
-- The CSV form of every result.
use go_udap.Prelude.{◌≡◌, refl, ◌≤◌, List, [], ◌∷◌, map, Option, none, some, length, arith}
use go_udap.Prelude.Bytes.{Bytes}
use go_udap.Go.Csv.Reader.{read_csv}
use go_udap.Udap.Discovery.{Device}
use go_udap.Cli.Output.{ParamValue}
use go_udap.Cli.Output.Devices.{cells, mac_rows}
use go_udap.Cli.Output.Networks.{
  NetworkRecord, network_cells, interface_records, InterfaceRecord, interface_cells,
}
use go_udap.Cli.Output.Formats.{csv}
use go_udap.Cli.Output.Render.{cell_text, render}
use go_udap.Cli.Output.Render.Csv.{AreAligned, read_csv-render_csv}
use go_udap.Cli.Version.{build_info_cells}
use go_udap.Cli.Results.{
  DiscoveredDevice, Answer, params, got, addresses, details, info, network, interfaces, version,
  build_info, param_rows, network_or_nulls, network_record, detail_rows, rendering,
}

param_rows_aligned : (ps : List ParamValue) → AreAligned 2 (param_rows ps)
unfolding param_rows
param_rows_aligned [] = tt
param_rows_aligned (p ∷ ps) = (refl, param_rows_aligned ps)

mac_rows_aligned : (ds : List Device) → AreAligned 1 (mac_rows ds)
unfolding mac_rows
mac_rows_aligned [] = tt
mac_rows_aligned (d ∷ ds) = (refl, mac_rows_aligned ds)

network_width : (r : Option NetworkRecord) → length (network_or_nulls r) ≡ 3
unfolding network_cells
network_width none = refl
network_width (some r) = refl

detail_rows_aligned : (ds : List DiscoveredDevice) → AreAligned 11 (detail_rows ds)
unfolding detail_rows cells
detail_rows_aligned [] = tt
detail_rows_aligned (d ∷ ds) =
    (omega (arith, network_width (network_record d)), detail_rows_aligned ds)

interface_rows_aligned : (rs : List InterfaceRecord) → AreAligned 4 (map interface_cells rs)
unfolding interface_cells
interface_rows_aligned [] = tt
interface_rows_aligned (r ∷ rs) = (refl, interface_rows_aligned rs)

-- Every row of every result has a cell for every column, of which there is at least one.
pub rendering-AreAligned :
    (a : Answer)
    → (1 ≤ length (rendering a).csv_header)
      × AreAligned (length (rendering a).csv_header) (rendering a).csv_rows
unfolding rendering
rendering-AreAligned (params ps) = (omega arith, param_rows_aligned ps)
rendering-AreAligned (got ps) = (omega arith, param_rows_aligned ps)
rendering-AreAligned (addresses ds) = (omega arith, mac_rows_aligned ds)
rendering-AreAligned (details ds) = (omega arith, detail_rows_aligned ds)
rendering-AreAligned (info d) = (omega arith, (unfold cells in refl, tt))
rendering-AreAligned (network nc) = (omega arith, (unfold network_cells in refl, tt))
rendering-AreAligned (interfaces is) = (omega arith, interface_rows_aligned (interface_records is))
rendering-AreAligned (version r) = (omega arith, (refl, tt))
rendering-AreAligned (build_info r) = (omega arith, (unfold build_info_cells in refl, tt))

-- Every result is written as CSV without a panic, and a reader of CSV finds its header and then its
-- rows, with empty fields for the cells that are null.
pub read_csv-render :
    (a : Answer)
    → (out : Bytes) × (render csv (rendering a) ≡ some out)
      × (read_csv out ≡ (rendering a).csv_header ∷ map (map cell_text) (rendering a).csv_rows)
unfolding render
read_csv-render a =
    let (ne, aligned) = rendering-AreAligned a in
    read_csv-render_csv (rendering a).csv_header (rendering a).csv_rows ne aligned
