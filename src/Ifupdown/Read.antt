-- ===== src/Ifupdown/Read.antt =====
-- ReadFile and newIfUpDown of ifupdown.go. A pointer to an interface is its name; no two interfaces
-- of the list share one.
use go_network_configurator.Prelude.{
  ℕ, zero, suc, ◌-◌, ◌*◌, ◌^◌, Bool, true, false, not, ◌&&◌, List, [], ◌∷◌, ◌++◌, Option, none,
  some, leb, ltb, if◌then◌else◌, Bytes, codes, bytes_eq, length,
}
use go_network_configurator.Prelude.Exec.{Result, ok, err, bad_syntax, no_interface, bad_address}
use go_network_configurator.Net.{Ip, IpNet, is_nil, is_v4, to4, string_in_slice}
use go_network_configurator.NetTexts.{Texts}
use go_network_configurator.Linux.Dns.{joined}
use go_network_configurator.Ifupdown.{IfInterface, ensured}
use go_network_configurator.Ifupdown.Rewrite.{before_byte, has_byte}
use go_network_configurator.Ifupdown.Scripts.{
  no_command, whole_mask, scan_up_route, scan_down_route, scan_up_ip, scan_down_ip,
}
use go_network_configurator.Ifupdown.Effects.{
  apply_up_route, apply_up_ip, skips_down_route, skips_down_ip,
}

-- The interfaces, with `iface` and `address` of a run of ReadFile
pub record Parser : Type 0 where
  pub interfaces : List IfInterface
  pub current : Option Bytes
  pub pending : Option IpNet

abbrev pub start_file : List IfInterface → Parser
start_file interfaces = record { interfaces = interfaces; current = none; pending = none }

-- A change through the pointer
unfoldable pub on_named : Bytes → (IfInterface → IfInterface) → List IfInterface → List IfInterface
on_named name f [] = []
on_named name f (i ∷ interfaces) =
    let rest = on_named name f interfaces in
    if bytes_eq i.name name then f i ∷ interfaces else i ∷ rest

unfoldable pub find_named : Bytes → List IfInterface → Option IfInterface
find_named name [] = none
find_named name (i ∷ interfaces) =
    let rest = find_named name interfaces in if bytes_eq i.name name then some i else rest

abbrev pub on_current : (IfInterface → IfInterface) → Option Bytes → Parser → Parser
on_current f none p = p
on_current f (some name) p = record p { interfaces = on_named name f p.interfaces }

-- The address that is read joins those of the interface.
abbrev pub finish_with : Option IpNet → Parser → Parser
finish_with none p = p
finish_with (some address) p =
    record (on_current (λ i. record i { addresses = i.addresses ++ address ∷ [] }) p.current p) {
      pending = none;
    }

unfoldable pub finish_address : Parser → Parser
unfolding on_named
finish_address p = finish_with p.pending p

-- The loop over the fields of a mode
unfoldable pub note_methods : List Bytes → IfInterface → IfInterface
note_methods [] i = i
note_methods (f ∷ fs) i = note_methods fs (
    if bytes_eq f (codes "dhcp")
    then record i { is_dhcp = true }
    else if bytes_eq f (codes "ppp")
    then record i { is_ppp = true }
    else i)

-- What a stanza line sets: the file is noted once, and then the methods and the mode.
unfoldable pub note_stanza : Bytes → List Bytes → IfInterface → IfInterface
unfolding note_methods
note_stanza file mode i =
    let files = if string_in_slice i.files file then i.files else i.files ++ file ∷ [] in
    record (note_methods mode (record i { files = files })) { mode = joined mode }

-- The case of a stanza line
unfoldable pub read_stanza : Bytes → Bytes → List Bytes → Parser → Result Parser
unfolding finish_address note_stanza ensured before_byte
read_stanza base_config file [] p = err bad_syntax
read_stanza base_config file (f ∷ mode) p =
    let name = before_byte b':' f in
    let done = finish_address p in
    ok (record done {
      interfaces = on_named name (note_stanza file mode) (ensured base_config done.interfaces name);
      current = some name;
    })

-- `net.CIDRMask`
unfoldable pub mask_bytes : ℕ → ℕ → Bytes
mask_bytes zero ones = []
mask_bytes (suc n) ones =
    (if leb 8 ones then 255 else 256 - 2 ^ (8 - ones)) ∷ mask_bytes n (ones - 8)

unfoldable pub cidr_mask : ℕ → ℕ → Bytes
unfolding mask_bytes
cidr_mask ones size = if ltb (8 * size) ones then [] else mask_bytes size ones

abbrev pub now_pending : Result IpNet → Parser → Result Parser
now_pending (err e) p = err e
now_pending (ok address) p = ok (record p { pending = some address })

abbrev pub masked : IpNet → Result Bytes → Parser → Result Parser
masked address (err e) p = err e
masked address (ok mask) p = ok (record p { pending = some (record address { mask = mask }) })

abbrev pub with_gateway : Ip → IfInterface → IfInterface
with_gateway gateway i =
    if is_v4 gateway then record i { gateway4 = gateway } else record i { gateway6 = gateway }

module _ (texts : Texts) (atoi : Bytes → Result ℕ) where
  -- What an address line names
  unfoldable pub parse_address : Bytes → Result IpNet
  unfolding has_byte
  parse_address text =
      if not (has_byte b'/' text)
      then (if is_nil (texts.parse_ip text)
          then err bad_address
          else ok (record { ip = texts.parse_ip text; mask = whole_mask (texts.parse_ip text) }))
      else texts.parse_cidr text

  -- The case of an address line
  unfoldable pub read_address : List Bytes → Option Bytes → Parser → Result Parser
  unfolding parse_address finish_address
  read_address [] current p = err bad_syntax
  read_address (f ∷ fs) none p = err no_interface
  read_address (f ∷ fs) (some name) p = now_pending (parse_address f) (finish_address p)

  -- The mask of a netmask line, for an address
  unfoldable pub prefix_mask : Ip → Result ℕ → Result Bytes
  unfolding cidr_mask
  prefix_mask ip (err e) = err e
  prefix_mask ip (ok prefix) = ok (cidr_mask prefix (if is_v4 ip then 4 else 16))

  unfoldable pub parse_netmask : Bytes → Ip → Result Bytes
  unfolding has_byte prefix_mask
  parse_netmask text ip =
      if has_byte b'.' text
      then (let mask = to4 (texts.parse_ip text) in
          if is_nil mask then err bad_address else ok mask)
      else prefix_mask ip (atoi text)

  -- The case of a netmask line
  unfoldable pub read_netmask : List Bytes → Option IpNet → Parser → Result Parser
  unfolding parse_netmask
  read_netmask [] pending p = err bad_syntax
  read_netmask (f ∷ fs) none p = err no_interface
  read_netmask (f ∷ fs) (some address) p = masked address (parse_netmask f address.ip) p

  -- The case of a gateway line; without an interface the code panics.
  unfoldable pub read_gateway : List Bytes → Option Bytes → Parser → Result Parser
  unfolding on_named
  read_gateway [] current p = err bad_syntax
  read_gateway (f ∷ fs) current p =
      let gateway = texts.parse_ip f in
      if is_nil gateway then err bad_address else elim current [
        | none ↦ err no_interface
        | some name ↦ ok (on_current (with_gateway gateway) (some name) p)
      ]

-- `iface.Config[name] = append(iface.Config[name], value)`
unfoldable pub append_config : Bytes → Bytes → List (Bytes × List Bytes) → List (Bytes × List Bytes)
append_config key value [] = (key, value ∷ []) ∷ []
append_config key value ((k, values) ∷ config) =
    let rest = append_config key value config in
    if bytes_eq k key then (k, values ++ value ∷ []) ∷ config else (k, values) ∷ rest

unfoldable pub add_config : Bytes → List Bytes → IfInterface → IfInterface
unfolding append_config
add_config key values i = record i { config = append_config key (joined values) i.config }

-- The line is done with, or it is kept as configuration.
abbrev pub or_config : Option IfInterface → IfInterface → IfInterface
or_config none kept = kept
or_config (some i) kept = i

module _ (texts : Texts) (atoi : Bytes → Result ℕ) where
  -- An `up` line with its further fields, of which there are at least three
  unfoldable pub read_up : List Bytes → IfInterface → Option IfInterface
  unfolding scan_up_route scan_up_ip apply_up_route apply_up_ip
  read_up [] i = none
  read_up (command ∷ args) i =
      if bytes_eq command (codes "route")
      then apply_up_route (scan_up_route texts atoi args no_command) i
      else if bytes_eq command (codes "ip")
      then apply_up_ip (scan_up_ip texts atoi i.name args no_command) i
      else none

  unfoldable pub skips_down : List Bytes → IfInterface → Bool
  unfolding scan_down_route scan_down_ip skips_down_route skips_down_ip
  skips_down [] i = false
  skips_down (command ∷ args) i =
      if bytes_eq command (codes "route")
      then skips_down_route (scan_down_route texts atoi args no_command) i
      else if bytes_eq command (codes "ip")
      then skips_down_ip (scan_down_ip texts atoi i.name args no_command)
      else false

  -- What another line does to the interface
  unfoldable pub read_option : Bytes → List Bytes → IfInterface → IfInterface
  unfolding read_up skips_down add_config
  read_option key values i =
      let kept = add_config key values i in
      if bytes_eq key (codes "up") && leb 3 (length values)
      then or_config (read_up values i) kept
      else if bytes_eq key (codes "down") && leb 3 (length values) && skips_down values i
      then i
      else kept

  unfoldable pub read_other : Bytes → List Bytes → Parser → Result Parser
  unfolding read_option on_named
  read_other key [] p = err bad_syntax
  read_other key (v ∷ vs) p = ok (on_current (read_option key (v ∷ vs)) p.current p)
