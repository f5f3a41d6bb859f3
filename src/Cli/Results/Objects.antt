-- ===== src/Cli/Results/Objects.antt =====
-- The JSON form of every result, and that it says what the CSV form says.
use go_udap.Prelude.{
  ◌≡◌, refl, ap, ◌∙◌, Bool, List, [], ◌∷◌, ◌++◌, map, Option, none, some, All, append-nil,
}
use go_udap.Prelude.Bytes.{Bytes, codes}
use go_udap.Go.Strconv.{format_uint}
use go_udap.Go.Scan.{is_digit}
use go_udap.Go.Json.{Json, null, bool, num, str, arr, obj, Items, nil, cons, Fields, end, field}
use go_udap.Go.Json.Reader.{read_json}
use go_udap.Go.Json.RoundTrip.{IsAsciiJson, read_json-marshal}
use go_udap.Udap.GetIp.{NetworkConfig}
use go_udap.Udap.Discovery.{Device}
use go_udap.Cli.Output.{ParamValue}
use go_udap.Cli.Output.Devices.{DeviceRecord, new_device_record, cells, device_header, mac_rows}
use go_udap.Cli.Output.Networks.{
  NetworkRecord, new_network_record, network_cells, network_header, interface_records,
  InterfaceRecord, interface_cells, interface_header,
}
use go_udap.Cli.Output.Formats.{json}
use go_udap.Cli.Output.Render.{render}
use go_udap.Cli.Version.{BuildInfoResult, build_info_cells, build_info_header, format_bool}
use go_udap.Cli.Results.{
  DiscoveredDevice, Answer, params, got, addresses, details, info, network, interfaces, version,
  build_info, param_fields, param_rows, mac_items, device_fields, network_json, detail_items,
  detail_rows, interface_items, build_info_json, network_record, rendering, details_header,
  json_or_null, bool_or_null,
}

abbrev pub Cells : Type 0
Cells = List (Bytes × Option Bytes)

-- A struct as names and texts; the fields of a struct inside it have its name in front.
mutual
  pub flat_value : Bytes → Json → Cells
  flat_value k null = (k, none) ∷ []
  flat_value k (bool b) = (k, some (format_bool b)) ∷ []
  flat_value k (num n) = (k, some (format_uint n)) ∷ []
  flat_value k (str s) = (k, some s) ∷ []
  flat_value k (arr xs) = []
  flat_value k (obj fs) = flat (k ++ b'_' ∷ []) fs

  pub flat : Bytes → Fields → Cells
  flat prefix end = []
  flat prefix (field k v fs) = flat_value (prefix ++ k) v ++ flat prefix fs

unfoldable pub flat_items : Items → List Cells
unfolding flat
flat_items nil = []
flat_items (cons (obj fs) xs) = flat [] fs ∷ flat_items xs
flat_items (cons v xs) = flat_items xs

-- The records of a result: the structs of a slice, or one struct.
unfoldable pub json_records : Json → List Cells
unfolding flat_items
json_records (arr xs) = flat_items xs
json_records (obj fs) = flat [] fs ∷ []
json_records v = []

abbrev pub zip : List Bytes → List (Option Bytes) → Cells
zip [] cs = []
zip (h ∷ hs) [] = []
zip (h ∷ hs) (c ∷ cs) = (h, c) ∷ zip hs cs

-- A row of a parameter's name and value.
abbrev as_cell : List (Option Bytes) → Bytes × Option Bytes
as_cell (some name ∷ value ∷ row) = (name, value)
as_cell row = ([], none)

-- The records that the CSV form shows: a row for each, but for parameters, which are one record.
unfoldable pub csv_records : Answer → List Cells
csv_records (params ps) = map as_cell (rendering (params ps)).csv_rows ∷ []
csv_records (got ps) = map as_cell (rendering (got ps)).csv_rows ∷ []
csv_records a = map (zip (rendering a).csv_header) (rendering a).csv_rows

-- Every device has a network, which would be null in JSON otherwise.
abbrev pub HasNetworks : Answer → Type 0
HasNetworks (details ds) =
    All (λ (d : DiscoveredDevice). (nc : NetworkConfig) × (d.network ≡ some nc)) ds
HasNetworks a = Unit

flat_params : (ps : List ParamValue) → flat [] (param_fields ps) ≡ map as_cell (param_rows ps)
unfolding flat param_fields param_rows
flat_params [] = refl
flat_params (p ∷ ps) = ap (λ (c : Cells). (p.name, some p.value) ∷ c) (flat_params ps)

-- A text or null.
flat_or_null : (k : Bytes) (o : Option Bytes) → flat_value k (json_or_null o) ≡ (k, o) ∷ []
unfolding flat_value
flat_or_null k none = refl
flat_or_null k (some s) = refl

flat_bool :
    (k : Bytes) (o : Option Bool)
    → flat_value k (bool_or_null o)
      ≡ (k, elim o [ none ↦ none | some b ↦ some (format_bool b) ]) ∷ []
unfolding flat_value
flat_bool k none = refl
flat_bool k (some s) = refl

flat_device :
    (r : DeviceRecord) (fs : Fields)
    → flat [] (device_fields r fs) ≡ zip device_header (cells r) ++ flat [] fs
unfolding flat device_fields cells
flat_device r fs = simp flat_or_null

flat_network :
    (nc : NetworkConfig)
    → json_records (network_json (new_network_record nc))
      ≡ zip network_header (network_cells (new_network_record nc)) ∷ []
unfolding json_records network_json network_cells
flat_network nc = simp flat_or_null

flat_addresses :
    (ds : List Device) → flat_items (mac_items ds) ≡ map (zip (codes "mac" ∷ [])) (mac_rows ds)
unfolding flat_items mac_items mac_rows
flat_addresses [] = refl
flat_addresses (d ∷ ds) = rw (flat_addresses ds) refl

flat_interfaces :
    (rs : List InterfaceRecord)
    → flat_items (interface_items rs) ≡ map (zip interface_header) (map interface_cells rs)
unfolding flat_items interface_items interface_cells
flat_interfaces [] = refl
flat_interfaces (r ∷ rs) = simp (flat_or_null, flat_interfaces rs)

flat_build_info :
    (r : BuildInfoResult)
    → json_records (build_info_json r) ≡ zip build_info_header (build_info_cells r) ∷ []
unfolding json_records build_info_json build_info_cells
flat_build_info r = simp (flat_or_null, flat_bool)

network_record-some :
    (d : DiscoveredDevice) (nc : NetworkConfig)
    → d.network ≡ some nc
    → network_record d ≡ some (new_network_record nc)
unfolding network_record
network_record-some d nc e = rw e refl

-- A device with its network, whose names have a prefix in both forms.
flat_detail :
    (d : DeviceRecord) (n : NetworkRecord)
    → flat [] (device_fields d (field (codes "network") (network_json n) end))
      ≡ zip details_header (cells d ++ network_cells n)
unfolding flat network_json network_cells cells
flat_detail d n = flat_device d (field (codes "network") (network_json n) end) ∙ simp flat_or_null

flat_details :
    (ds : List DiscoveredDevice)
    → HasNetworks (details ds)
    → flat_items (detail_items ds) ≡ map (zip details_header) (detail_rows ds)
unfolding flat_items detail_items detail_rows
flat_details [] h = refl
flat_details (d ∷ ds) ((nc, e), h) =
    rw (network_record-some d nc e, flat_details ds h)
      (ap (λ (c : Cells). c ∷ map (zip details_header) (detail_rows ds))
        (flat_detail (new_device_record d.device) (new_network_record nc)))

-- The JSON form of a result holds the records of its CSV form.
pub json_records-csv_records :
    (a : Answer) → HasNetworks a → json_records (rendering a).json_value ≡ csv_records a
unfolding rendering csv_records
json_records-csv_records (params ps) h =
    unfold json_records in ap (λ (c : Cells). c ∷ []) (flat_params ps)
json_records-csv_records (got ps) h =
    unfold json_records in ap (λ (c : Cells). c ∷ []) (flat_params ps)
json_records-csv_records (addresses ds) h = unfold json_records in flat_addresses ds
json_records-csv_records (details ds) h = unfold json_records in flat_details ds h
json_records-csv_records (info d) h =
    unfold json_records in
    ap (λ (c : Cells). c ∷ []) (flat_device (new_device_record d) end ∙ append-nil _)
json_records-csv_records (network nc) h = flat_network nc
json_records-csv_records (interfaces is) h =
    unfold json_records in flat_interfaces (interface_records is)
json_records-csv_records (version r) h = unfold json_records in refl
json_records-csv_records (build_info r) h = flat_build_info r

-- If the texts of a result are ASCII and every device in it has a network, then a reader of JSON finds
-- one value and a line feed in its JSON form, and the value's records are those of the CSV form.
pub read_json-render :
    (a : Answer)
    → IsAsciiJson (rendering a).json_value
    → HasNetworks a
    → (out : Bytes) × (render json (rendering a) ≡ some out)
      × (v : Json) × (read_json out ≡ some (v, b'\n' ∷ []))
      × (json_records v ≡ csv_records a)
unfolding render
read_json-render a ascii h = (
  _,
  refl,
  (rendering a).json_value,
  read_json-marshal (rendering a).json_value (b'\n' ∷ []) ascii (unfold is_digit in refl),
  json_records-csv_records a h,
)
