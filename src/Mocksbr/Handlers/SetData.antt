-- ===== src/Mocksbr/Handlers/SetData.antt =====
-- What a SetData request of the client leaves in the virtual device.
use go_udap.Prelude.{List, [], ◌∷◌}
use go_udap.Prelude.Bytes.{Bytes}
use go_udap.Prelude.Dict.{Dict, put}
use go_udap.Prelude.Sort.{sort}
use go_udap.Udap.Packet.{Packet}
use go_udap.Udap.Parameters.Codec.{format_get_data_value}
use go_udap.Udap.Client.Packets.{ParamEntry, entry_offset, param_list}
use go_udap.Mocksbr.Device.{MockDevice, apply_set, apply_save}
use go_udap.Mocksbr.Requests.RoundTrip.{wire_value}

-- The entries, each under its parameter's name, with the value that the client would read back from
-- its encoded bytes.
abbrev pub read_back : List ParamEntry → Dict Bytes → Dict Bytes
read_back [] out = out
read_back (e ∷ es) out =
    read_back es (put e.parameter.name (format_get_data_value (wire_value e)) out)

-- The device after it has stored the client's values.
abbrev pub configured : Dict Bytes → MockDevice → MockDevice
configured params d =
    apply_save (apply_set (read_back (sort entry_offset (param_list params)) []) d)
