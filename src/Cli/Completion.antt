-- ===== src/Cli/Completion.antt =====
-- cli/completion.go and `completeFormats`: what the shell is offered for a word. The state file and
-- `newClient` are parameters; times are in milliseconds.
pub mod Tiers
use go_udap.Prelude.{
  ℕ, ◌-◌, ◌≡◌, refl, Bool, true, false, List, [], ◌∷◌, ◌++◌, ◌||◌, map, Option, none, some, ltb,
  ◌==◌, if◌then◌else◌, length, Result, ok, err,
}
use go_udap.Prelude.Bytes.{Bytes, codes, bytes_eq}
use go_udap.Go.Scan.{sscan_int}
use go_udap.Go.Strconv.{format_uint}
use go_udap.Go.NetIp.Print.{ip_string}
use go_udap.Udap.Mac.{mac_string}
use go_udap.Udap.Discovery.{Device}
use go_udap.Udap.Interfaces.{NetInterface, RawInterface, enumerate_interfaces}
use go_udap.Udap.Parameters.Table.{Parameter, parameters}
use go_udap.Udap.Transport.{Transport}
use go_udap.Udap.Client.{Client, list_devices}
use go_udap.Udap.Operations.{OpError, discover_devices}
use go_udap.Cli.Output.Formats.{Format, text, json, csv, format_name}

-- The state file: when it was written, and its bytes, unless it cannot be read.
pub record StateFile : Type 0 where
  pub modified : ℕ
  pub content : Option Bytes

pub data Directive : Type 0 where
  no_file_comp comp_error : Directive

abbrev pub cold : ℕ
cold = 500

abbrev pub default_timeout : ℕ
default_timeout = 2000

abbrev pub fresh_for : ℕ
fresh_for = 10000

-- The tier that the recorded count asks for.
unfoldable pub tier_of : Option (Bool × ℕ) → ℕ
tier_of none = cold
tier_of (some (negative, n)) = if n == 0 then default_timeout else cold

-- `nextMACTimeout`; no file is `none`.
unfoldable pub next_mac_timeout : ℕ → Option StateFile → ℕ
unfolding tier_of
next_mac_timeout now none = cold
next_mac_timeout now (some f) =
    if ltb fresh_for (now - f.modified)
    then cold
    else elim f.content [ none ↦ cold | some bytes ↦ tier_of (sscan_int bytes) ]

-- `recordMACAttempt`; a write that fails leaves the file as it was.
unfoldable pub record_mac_attempt : Bool → ℕ → ℕ → Option StateFile → Option StateFile
record_mac_attempt fails now count file =
    if fails then file else some (record { modified = now; content = some (format_uint count) })

-- An offer, with what the shell shows beside it.
abbrev pub described : Bytes → Bytes → Bytes
described word help = word ++ (b'\t' ∷ help)

-- The offer for a device.
unfoldable pub mac_entry : Device → Bytes
mac_entry d = if length d.name == 0 then mac_string d.mac else described (mac_string d.mac) d.name

abbrev pub Offers : Type 0
Offers = List Bytes × Directive

module _ {S : Type 0} (t : Transport S) where
  -- The offers of a client behind a discovery, whose error is ignored.
  unfoldable pub offers_of : Client S → List Bytes
  unfolding mac_entry
  offers_of c =
      let (r, c') = discover_devices t c in map (λ a. mac_entry (c'.heap a)) (list_devices c')

  -- A client, or the error of `newClient`.
  unfoldable pub complete_with :
      Bool → ℕ → Option StateFile → Result ℕ (Client S) → Offers × Option StateFile
  unfolding offers_of
  complete_with fails now file (err e) = (([], comp_error), record_mac_attempt fails now 0 file)
  complete_with fails now file (ok c) =
      ((offers_of c, no_file_comp), record_mac_attempt fails now (length (offers_of c)) file)

  -- `completeMACs`; `new_client` makes a client whose context ends after a time.
  unfoldable pub complete_macs :
      (ℕ → Result ℕ (Client S))
      → Bool
      → ℕ
      → Option StateFile
      → List Bytes
      → Offers × Option StateFile
  unfolding complete_with
  complete_macs new_client fails now file [] =
      complete_with fails now file (new_client (next_mac_timeout now file))
  complete_macs new_client fails now file (arg ∷ args) = (([], no_file_comp), file)

-- `completeInterfaces`
unfoldable pub complete_interfaces : Result ℕ (List RawInterface) → Offers
complete_interfaces raw = elim (enumerate_interfaces raw) [
  | err e ↦ ([], comp_error)
  | ok found ↦ (map (λ (i : NetInterface). described i.name (ip_string i.addr)) found, no_file_comp)
]

-- `slices.Contains`
unfoldable pub contains : List Bytes → Bytes → Bool
contains [] s = false
contains (x ∷ xs) s = bytes_eq x s || contains xs s

-- The loop of `completeParameterNames`.
unfoldable pub offered_names : List Bytes → List Parameter → List Bytes
unfolding contains
offered_names used [] = []
offered_names used (p ∷ ps) =
    let rest = offered_names used ps in
    if contains used p.name then rest else described p.name p.help ∷ rest

-- `completeParameterNames`: the first word is a MAC address.
unfoldable pub complete_parameter_names :
    {S : Type 0}
    → Transport S
    → (ℕ → Result ℕ (Client S))
    → Bool
    → ℕ
    → Option StateFile
    → List Bytes
    → Offers × Option StateFile
unfolding complete_macs offered_names
complete_parameter_names t new_client fails now file [] =
    complete_macs t new_client fails now file []
complete_parameter_names t new_client fails now file (mac ∷ used) =
    ((offered_names used parameters, no_file_comp), file)

-- `completeFormats`, with `output.Names`
unfoldable pub complete_formats : Offers
complete_formats = (map format_name (text ∷ json ∷ csv ∷ []), no_file_comp)
