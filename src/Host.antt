-- ===== src/Host.antt =====
-- What the Linux configurator asks of the machine: the calls of the packages netlink, pro-bing
-- and net/http, as a parameter over the state `W` of the machine. pingTest and testInternet of
-- utils.go stand on it. A context that is cancelled shows as a call that fails.
pub mod Keeps
use go_network_configurator.Prelude.{
  ℕ, ◌<◌, ◌≡◌, Bool, true, false, not, ◌||◌, List, [], ◌∷◌, if◌then◌else◌, Bytes, codes, bytes_eq,
  ltb, leb, ◌==◌, ℤ, is_positive,
}
use go_network_configurator.Prelude.Exec.{Exec, Result, ok, err, pure, reads, caught, ◌>>=◌, ◌>>◌}
use go_network_configurator.Net.{Ip, IpNet}
use go_network_configurator.Options.{
  default_ping_count, default_ping_timeout, default_connectivity_timeout,
}

-- netlink.FAMILY_ALL, FAMILY_V4, FAMILY_V6
pub data Family : Type 0 where
  all v4 v6 : Family

abbrev pub family_eq : Family → Family → Bool
family_eq all all = true
family_eq v4 v4 = true
family_eq v6 v6 = true
family_eq _ _ = false

-- `LinkAttrs.OperState`, as far as it is read
pub data OperState : Type 0 where
  unknown up other : OperState

-- A link: its attributes that are read, and whether its type is "device".
pub record Link : Type 0 where
  pub index : ℕ
  pub name : Bytes
  pub hardware_addr : Bytes
  pub flag_up : Bool
  pub oper_state : OperState
  pub is_device : Bool

-- `netlink.Addr`: its network, and a number for the fields that are passed on only
pub record Addr : Type 0 where
  pub ip_net : IpNet
  pub attributes : ℕ

-- `netlink.Route`; `attributes` as for an address
pub record NlRoute : Type 0 where
  pub family : Family
  pub link_index : ℕ
  pub dst : IpNet
  pub gw : Ip
  pub priority : ℕ
  pub attributes : ℕ

pub record Host (W : Type 0) : Type 0 where
  pub new_handle : W → Result (Unit {0})
  pub link_by_name : Bytes → W → Result Link
  pub link_list : W → Result (List Link)
  pub addr_list : Link → W → Result (List Addr)
  pub route_list : Link → Family → W → Result (List NlRoute)
  pub link_set_up : Link → Exec W (Unit {0})
  pub link_set_down : Link → Exec W (Unit {0})
  pub addr_add : Link → Addr → Exec W (Unit {0})
  pub addr_replace : Link → Addr → Exec W (Unit {0})
  pub addr_del : Link → Addr → Exec W (Unit {0})
  pub route_add : NlRoute → Exec W (Unit {0})
  pub route_change : NlRoute → Exec W (Unit {0})
  pub route_replace : NlRoute → Exec W (Unit {0})
  pub route_del : NlRoute → Exec W (Unit {0})
  pub new_pinger : Ip → W → Result (Unit {0})
  -- the packets that come back from so many probes in so much time
  pub run_pinger : Ip → ℤ → ℤ → Exec W ℕ
  -- the status code of a GET, within a time
  pub http_get : Bytes → ℤ → Exec W ℕ

abbrev pub test_success : Bytes
test_success = codes "test_success"

abbrev pub test_fail : Bytes
test_fail = codes "test_fail"

abbrev pub received : Result ℕ → Bool
received (ok packets) = not (packets == 0)
received (err e) = false

abbrev pub served : Result ℕ → Bool
served (ok status) = not (ltb status 200 || leb 400 status)
served (err e) = false

module _ {W : Type 0} (host : Host W) where
  -- pingTest
  unfoldable pub ping_test : Ip → ℤ → ℤ → Exec W Bool
  ping_test dest count timeout =
      caught
        (do
          reads (host.new_pinger dest)
          host.run_pinger dest (if is_positive count then count else default_ping_count)
              (if is_positive timeout then timeout else default_ping_timeout))
        received

  -- testInternet
  unfoldable pub test_internet : Bytes → ℤ → Exec W Bool
  test_internet test_address timeout =
      if bytes_eq test_address test_success
      then pure true
      else if bytes_eq test_address test_fail
      then pure false
      else caught
          (host.http_get test_address
            (if is_positive timeout then timeout else default_connectivity_timeout))
          served
