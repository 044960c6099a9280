-- ===== src/NetTexts.antt =====
-- How Go writes and reads addresses and numbers.
use go_network_configurator.Prelude.{ℕ, Bytes}
use go_network_configurator.Prelude.Exec.{Result}
use go_network_configurator.Net.{Ip, IpNet}

-- The texts of addresses and numbers, of the packages net and strconv. `parse_cidr` gives the
-- network with the address as it was written; a nil address is no bytes.
pub record Texts : Type 0 where
  pub parse_ip : Bytes → Ip
  pub parse_cidr : Bytes → Result IpNet
  pub parse_mac : Bytes → Result Bytes
  pub ip_string : Ip → Bytes
  pub net_string : IpNet → Bytes
  pub itoa : ℕ → Bytes
