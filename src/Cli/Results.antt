-- ===== src/Cli/Results.antt =====
-- The results of the commands: every implementation of `output.Result` in cli/ with its four methods.
pub mod Tables
pub mod Objects
use go_udap.Prelude.{ℕ, ◌≡◌, refl, Bool, List, [], ◌∷◌, ◌++◌, map, Option, none, some, length}
use go_udap.Prelude.Bytes.{Bytes, codes}
use go_udap.Go.Json.{Json, null, bool, num, str, arr, obj, Items, nil, cons, Fields, end, field}
use go_udap.Udap.Mac.{mac_string}
use go_udap.Udap.GetIp.{NetworkConfig, empty_config}
use go_udap.Udap.Discovery.{Device}
use go_udap.Udap.Interfaces.{NetInterface}
use go_udap.Cli.Output.{ParamValue, write_text}
use go_udap.Cli.Output.Devices.{
  DeviceRecord, new_device_record, cells, device_header, format_device_info, write_macs, mac_rows,
}
use go_udap.Cli.Output.Networks.{
  NetworkRecord, new_network_record, network_cells, network_header, format_network_config,
  InterfaceRecord, interface_records, interface_cells, interface_header, format_interfaces_table,
}
use go_udap.Cli.Output.Render.{Rendering}
use go_udap.Cli.Get.{write_get_text}
use go_udap.Cli.Version.{
  VersionResult, version_header, write_version, BuildInfoResult, write_build_info, build_info_cells,
  build_info_header,
}
pub use go_udap.Cli.Output.Objects.{json_or_null, bool_or_null}
unfoldable pub use go_udap.Cli.Output.Objects.{
  param_fields, mac_items, device_fields, network_json, interface_items, build_info_json,
}

-- `discoveredDevice`; a nil network is `none`.
pub record DiscoveredDevice : Type 0 where
  pub device : Device
  pub network : Option NetworkConfig

pub data Answer : Type 0 where
  params : List ParamValue → Answer
  got : List ParamValue → Answer
  addresses : List Device → Answer
  details : List DiscoveredDevice → Answer
  info : Device → Answer
  network : NetworkConfig → Answer
  interfaces : List NetInterface → Answer
  version : VersionResult → Answer
  build_info : BuildInfoResult → Answer

-- `paramList.CSVRows`
unfoldable pub param_rows : List ParamValue → List (List (Option Bytes))
param_rows = map (λ (p : ParamValue). some p.name ∷ some p.value ∷ [])

-- `discoveredDevice.networkRecord`
unfoldable pub network_record : DiscoveredDevice → Option NetworkRecord
network_record d = elim d.network [ none ↦ none | some nc ↦ some (new_network_record nc) ]

abbrev pub network_or_null : Option NetworkRecord → Json
network_or_null none = null
network_or_null (some r) = network_json r

-- `discoverInfoResult.JSONValue`
unfoldable pub detail_items : List DiscoveredDevice → Items
unfolding device_fields network_json
detail_items [] = nil
detail_items (d ∷ ds) =
    cons
      (obj (
        device_fields (new_device_record d.device)
          (field (codes "network") (network_or_null (network_record d)) end)))
      (detail_items ds)

-- `discoverInfoResult.WriteText`: a blank line between the devices.
unfoldable pub write_detail : DiscoveredDevice → Bytes
write_detail d =
    format_device_info d.device
    ++ format_network_config (elim d.network [ none ↦ empty_config | some nc ↦ nc ])

unfoldable pub write_details : List DiscoveredDevice → Bytes
unfolding write_detail
write_details [] = []
write_details (d ∷ []) = write_detail d
write_details (d ∷ e ∷ ds) = write_detail d ++ (b'\n' ∷ write_details (e ∷ ds))

-- `discoverInfoResult.CSVRows`; without a network its cells are null.
abbrev pub network_or_nulls : Option NetworkRecord → List (Option Bytes)
network_or_nulls none = map (λ _. none) network_header
network_or_nulls (some r) = network_cells r

unfoldable pub detail_rows : List DiscoveredDevice → List (List (Option Bytes))
detail_rows = map (λ (d : DiscoveredDevice).
    cells (new_device_record d.device) ++ network_or_nulls (network_record d))

-- `discoverInfoResult.CSVHeader`
abbrev pub details_header : List Bytes
details_header = device_header ++ map (λ name. codes "network_" ++ name) network_header

abbrev param_header : List Bytes
param_header = codes "name" ∷ codes "value" ∷ []

abbrev rendering_of : Bytes → Json → List Bytes → List (List (Option Bytes)) → Rendering
rendering_of text json header rows = record {
  written_text = text;
  json_value = json;
  csv_header = header;
  csv_rows = rows;
}

-- What the four methods of each result return: `paramList`, `getResult`, `discoverResult`,
-- `discoverInfoResult`, `infoResult`, `getipResult`, `interfacesResult`, `versionResult` and
-- `buildInfoResult`.
unfoldable pub param_list_result : List ParamValue → Rendering
unfolding param_fields param_rows
param_list_result ps =
    rendering_of (write_text ps) (obj (param_fields ps)) param_header (param_rows ps)

unfoldable pub got_result : List ParamValue → Rendering
unfolding param_fields param_rows
got_result ps =
    rendering_of (write_get_text ps) (obj (param_fields ps)) param_header (param_rows ps)

unfoldable pub discover_result : List Device → Rendering
unfolding mac_items
discover_result ds =
    rendering_of (write_macs ds) (arr (mac_items ds)) (codes "mac" ∷ []) (mac_rows ds)

unfoldable pub discover_info_result : List DiscoveredDevice → Rendering
unfolding detail_items write_details detail_rows
discover_info_result ds =
    rendering_of (write_details ds) (arr (detail_items ds)) details_header (detail_rows ds)

unfoldable pub info_result : Device → Rendering
unfolding device_fields
info_result d =
    rendering_of (format_device_info d) (obj (device_fields (new_device_record d) end))
      device_header (cells (new_device_record d) ∷ [])

unfoldable pub getip_result : NetworkConfig → Rendering
unfolding network_json
getip_result nc =
    rendering_of (format_network_config nc) (network_json (new_network_record nc)) network_header
      (network_cells (new_network_record nc) ∷ [])

unfoldable pub interfaces_result : List NetInterface → Rendering
unfolding interface_items
interfaces_result is =
    rendering_of (format_interfaces_table is) (arr (interface_items (interface_records is)))
      interface_header (map interface_cells (interface_records is))

unfoldable pub version_result : VersionResult → Rendering
version_result r =
    rendering_of (write_version r)
      (obj (field (codes "name") (str r.name) (field (codes "version") (str r.version) end)))
      version_header ((some r.name ∷ some r.version ∷ []) ∷ [])

unfoldable pub build_info_result : BuildInfoResult → Rendering
unfolding build_info_json
build_info_result r =
    rendering_of (write_build_info r) (build_info_json r) build_info_header
      (build_info_cells r ∷ [])

unfoldable pub rendering : Answer → Rendering
unfolding param_list_result got_result discover_result discover_info_result info_result getip_result
    interfaces_result version_result build_info_result
rendering (params ps) = param_list_result ps
rendering (got ps) = got_result ps
rendering (addresses ds) = discover_result ds
rendering (details ds) = discover_info_result ds
rendering (info d) = info_result d
rendering (network nc) = getip_result nc
rendering (interfaces is) = interfaces_result is
rendering (version r) = version_result r
rendering (build_info r) = build_info_result r
