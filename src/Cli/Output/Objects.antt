-- ===== src/Cli/Output/Objects.antt =====
-- The JSON values of the records that cli/ writes.
use go_udap.Prelude.{Bool, List, [], ◌∷◌, Option, none, some}
use go_udap.Prelude.Bytes.{Bytes, codes}
use go_udap.Go.Json.{Json, null, bool, num, str, obj, Items, nil, cons, Fields, end, field}
use go_udap.Udap.Mac.{mac_string}
use go_udap.Udap.Discovery.{Device}
use go_udap.Cli.Output.{ParamValue}
use go_udap.Cli.Output.Devices.{DeviceRecord}
use go_udap.Cli.Output.Networks.{NetworkRecord, InterfaceRecord}
use go_udap.Cli.Version.{BuildInfoResult}

-- A nil pointer marshals as null.
abbrev pub json_or_null : Option Bytes → Json
json_or_null none = null
json_or_null (some s) = str s

abbrev pub bool_or_null : Option Bool → Json
bool_or_null none = null
bool_or_null (some b) = bool b

-- `paramObject.MarshalJSON`: one object in the order of the list.
unfoldable pub param_fields : List ParamValue → Fields
param_fields [] = end
param_fields (p ∷ ps) = field p.name (str p.value) (param_fields ps)

-- `discoverResult.JSONValue`
unfoldable pub mac_items : List Device → Items
mac_items [] = nil
mac_items (d ∷ ds) = cons (obj (field (codes "mac") (str (mac_string d.mac)) end)) (mac_items ds)

-- The fields of a `deviceRecord`, in front of others.
unfoldable pub device_fields : DeviceRecord → Fields → Fields
device_fields r more = field (codes "mac") (str r.mac) (
    field (codes "ip") (json_or_null r.ip) (
      field (codes "name") (json_or_null r.name) (
        field (codes "model") (json_or_null r.model) (
          field (codes "firmware") (json_or_null r.firmware) (
            field (codes "hardware_rev") (json_or_null r.hardware_rev) (
              field (codes "uuid") (json_or_null r.uuid)
                (field (codes "state") (json_or_null r.state) more)))))))

unfoldable pub network_json : NetworkRecord → Json
network_json r = obj (
    field (codes "ip") (json_or_null r.ip) (
      field (codes "subnet_mask") (json_or_null r.subnet_mask)
        (field (codes "gateway") (json_or_null r.gateway) end)))

unfoldable pub interface_items : List InterfaceRecord → Items
interface_items [] = nil
interface_items (r ∷ rs) =
    cons
      (obj (
        field (codes "name") (str r.name) (
          field (codes "index") (num r.index) (
            field (codes "address") (json_or_null r.address)
              (field (codes "broadcast") (json_or_null r.broadcast) end)))))
      (interface_items rs)

unfoldable pub build_info_json : BuildInfoResult → Json
build_info_json r = obj (
    field (codes "name") (str r.name) (
      field (codes "version") (str r.version) (
        field (codes "commit") (json_or_null r.commit) (
          field (codes "commit_time") (json_or_null r.commit_time) (
            field (codes "modified") (bool_or_null r.modified) (
              field (codes "go_version") (str r.go_version) (
                field (codes "os") (json_or_null r.os)
                  (field (codes "arch") (json_or_null r.arch) end))))))))
