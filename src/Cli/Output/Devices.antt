-- ===== src/Cli/Output/Devices.antt =====
-- cli/output.go, cli/discover.go and cli/info.go: a device as text and as a record.
use go_udap.Prelude.{
  ◌≡◌, refl, List, [], ◌∷◌, ◌++◌, map, Option, none, some, length, ◌==◌, if◌then◌else◌,
}
use go_udap.Prelude.Bytes.{Bytes, codes}
use go_udap.Udap.Mac.{mac_string}
use go_udap.Udap.Discovery.{Device}

-- A label with its value, unless that is empty.
unfoldable field_line : Bytes → Bytes → Bytes
field_line label value = if length value == 0 then [] else label ++ (value ++ b'\n' ∷ [])

-- `formatDeviceInfo`
unfoldable pub format_device_info : Device → Bytes
unfolding field_line
format_device_info d =
    codes "MAC:      "
    ++ (mac_string d.mac
        ++ (b'\n' ∷ codes "IP:       "
            ++ (d.ip
                ++ (b'\n' ∷ field_line (codes "Name:     ") d.name
                    ++ (field_line (codes "Model:    ") d.model
                        ++ (field_line (codes "Firmware: ") d.firmware
                            ++ (field_line (codes "HW Rev:   ") d.hardware_rev
                                ++ (field_line (codes "UUID:     ") d.uuid
                                    ++ field_line (codes "State:    ") d.state))))))))

-- `stringOrNull`
unfoldable pub string_or_null : Bytes → Option Bytes
string_or_null s = if length s == 0 then none else some s

-- `deviceRecord`
pub record DeviceRecord : Type 0 where
  pub mac : Bytes
  pub ip : Option Bytes
  pub name : Option Bytes
  pub model : Option Bytes
  pub firmware : Option Bytes
  pub hardware_rev : Option Bytes
  pub uuid : Option Bytes
  pub state : Option Bytes

-- `newDeviceRecord`
unfoldable pub new_device_record : Device → DeviceRecord
unfolding string_or_null
new_device_record d = record {
  mac = mac_string d.mac;
  ip = string_or_null d.ip;
  name = string_or_null d.name;
  model = string_or_null d.model;
  firmware = string_or_null d.firmware;
  hardware_rev = string_or_null d.hardware_rev;
  uuid = string_or_null d.uuid;
  state = string_or_null d.state;
}

-- `deviceRecord.cells`
unfoldable pub cells : DeviceRecord → List (Option Bytes)
cells r = some r.mac ∷ r.ip ∷ r.name ∷ r.model ∷ r.firmware ∷ r.hardware_rev ∷ r.uuid ∷ r.state ∷ []

abbrev pub device_header : List Bytes
device_header =
    codes "mac"
    ∷ codes "ip"
    ∷ codes "name"
    ∷ codes "model"
    ∷ codes "firmware"
    ∷ codes "hardware_rev"
    ∷ codes "uuid"
    ∷ codes "state"
    ∷ []

-- `discoverResult.WriteText` and `CSVRows`
unfoldable pub write_macs : List Device → Bytes
write_macs [] = []
write_macs (d ∷ ds) = mac_string d.mac ++ (b'\n' ∷ write_macs ds)

unfoldable pub mac_rows : List Device → List (List (Option Bytes))
mac_rows ds = map (λ (d : Device). some (mac_string d.mac) ∷ []) ds

-- A row has a cell for every column.
pub cells-device_header : (d : Device) → length (cells (new_device_record d)) ≡ length device_header
unfolding cells
cells-device_header d = refl
