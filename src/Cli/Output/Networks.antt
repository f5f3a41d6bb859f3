-- ===== src/Cli/Output/Networks.antt =====
-- cli/output.go and cli/interfaces.go: network configurations and interfaces as text and as records;
-- udap/netconfig.go: the text of a configuration.
use go_udap.Prelude.{
  ℕ, ◌≡◌, arith, List, [], ◌∷◌, ◌++◌, map, ◌||◌, Option, none, some, length, ◌==◌, if◌then◌else◌,
}
use go_udap.Prelude.Bytes.{Bytes, codes}
use go_udap.Go.Fmt.{pad_right}
use go_udap.Go.Strconv.{format_uint}
use go_udap.Go.NetIp.Print.{ip_string, is_unspecified}
use go_udap.Udap.GetIp.{NetworkConfig}
use go_udap.Udap.Interfaces.{NetInterface}

-- `ipOrDash`
unfoldable pub ip_or_dash : Bytes → Bytes
ip_or_dash ip = if (length ip == 0) || is_unspecified ip then codes "-" else ip_string ip

-- `NetworkConfig.String`
unfoldable pub network_string : NetworkConfig → Bytes
unfolding ip_or_dash
network_string n =
    codes "IP:      "
    ++ (ip_or_dash n.ip
        ++ (b'\n' ∷ codes "Subnet:  "
            ++ (ip_or_dash n.subnet_mask ++ (b'\n' ∷ codes "Gateway: " ++ ip_or_dash n.gateway))))

-- `ipOrNull`
unfoldable pub ip_or_null : Bytes → Option Bytes
ip_or_null ip = if length ip == 0 then none else some (ip_string ip)

-- `configuredIPOrNull`
unfoldable pub configured_ip_or_null : Bytes → Option Bytes
unfolding ip_or_null
configured_ip_or_null ip = if is_unspecified ip then none else ip_or_null ip

-- `ipOrDashCLI`
unfoldable pub ip_or_dash_cli : Bytes → Bytes
unfolding configured_ip_or_null
ip_or_dash_cli ip = elim (configured_ip_or_null ip) [ some s ↦ s | none ↦ codes "-" ]

-- `formatNetworkConfig`
unfoldable pub format_network_config : NetworkConfig → Bytes
unfolding ip_or_dash_cli
format_network_config nc =
    codes "IP:      "
    ++ (ip_or_dash_cli nc.ip
        ++ (b'\n' ∷ codes "Subnet:  "
            ++ (ip_or_dash_cli nc.subnet_mask
                ++ (b'\n' ∷ codes "Gateway: " ++ (ip_or_dash_cli nc.gateway ++ b'\n' ∷ [])))))

-- The two texts of an address are the same.
ip_or_dash_cli-ip_or_dash : (ip : Bytes) → ip_or_dash_cli ip ≡ ip_or_dash ip
unfolding ip_or_dash_cli ip_or_dash
ip_or_dash_cli-ip_or_dash ip = ground arith

-- `networkRecord`
pub record NetworkRecord : Type 0 where
  pub ip : Option Bytes
  pub subnet_mask : Option Bytes
  pub gateway : Option Bytes

abbrev pub network_header : List Bytes
network_header = codes "ip" ∷ codes "subnet_mask" ∷ codes "gateway" ∷ []

-- `newNetworkRecord`
unfoldable pub new_network_record : NetworkConfig → NetworkRecord
unfolding configured_ip_or_null
new_network_record nc = record {
  ip = configured_ip_or_null nc.ip;
  subnet_mask = configured_ip_or_null nc.subnet_mask;
  gateway = configured_ip_or_null nc.gateway;
}

-- `networkRecord.cells`
unfoldable pub network_cells : NetworkRecord → List (Option Bytes)
network_cells r = r.ip ∷ r.subnet_mask ∷ r.gateway ∷ []

-- `interfaceRecord`
pub record InterfaceRecord : Type 0 where
  pub name : Bytes
  pub index : ℕ
  pub address : Option Bytes
  pub broadcast : Option Bytes

abbrev pub interface_header : List Bytes
interface_header = codes "name" ∷ codes "index" ∷ codes "address" ∷ codes "broadcast" ∷ []

-- `interfacesResult.records`
unfoldable pub interface_records : List NetInterface → List InterfaceRecord
unfolding ip_or_null
interface_records = map (λ (i : NetInterface). record {
  name = i.name;
  index = i.index;
  address = ip_or_null i.addr;
  broadcast = ip_or_null i.broadcast;
})

-- A row of `interfacesResult.CSVRows`.
unfoldable pub interface_cells : InterfaceRecord → List (Option Bytes)
interface_cells r = some r.name ∷ some (format_uint r.index) ∷ r.address ∷ r.broadcast ∷ []

-- A line of the table: `%-15s %-5d  %-18s %s`.
unfoldable pub interface_line : NetInterface → Bytes
interface_line i =
    pad_right 15 i.name
    ++ (b' '
        ∷ (pad_right 5 (format_uint i.index)
            ++ (b' '
                ∷ b' '
                ∷ (pad_right 18 (ip_string i.addr)
                    ++ (b' ' ∷ (ip_string i.broadcast ++ b'\n' ∷ []))))))

unfoldable pub interface_lines : List NetInterface → Bytes
unfolding interface_line
interface_lines [] = []
interface_lines (i ∷ is) = interface_line i ++ interface_lines is

-- `formatInterfacesTable`
unfoldable pub format_interfaces_table : List NetInterface → Bytes
unfolding interface_lines
format_interfaces_table [] = []
format_interfaces_table (i ∷ is) =
    codes "NAME            INDEX  ADDRESS            BROADCAST\n" ++ interface_lines (i ∷ is)
