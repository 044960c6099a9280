-- ===== src/Tests/Values.antt =====
-- Backends, backups and services at concrete values.
use go_network_configurator.Prelude.{
  ◌≡◌, refl, ℕ, zero, suc, pos, Bool, true, false, ◌&&◌, ◌||◌, List, [], ◌∷◌, ◌++◌, none, some, any,
  if◌then◌else◌, Bytes, codes, bytes_eq,
}
use go_network_configurator.Prelude.Exec.{ok, err, external, raise, no_dhcp_backend}
use go_network_configurator.Net.{Ip, IpNet}
use go_network_configurator.Iface.{Interface, stable_sort}
use go_network_configurator.Backend.{
  IfaceBackend, apply_iface_dhcp, renew_dhcp_on_backends, merge_backend_state,
}
use go_network_configurator.Backend.Merge.{reports_for, all_reported}
use go_network_configurator.Backend.Merge.Reports.{
  Pointwise, IsMergeOf, merge_backend_state-IsMergeOf,
}
use go_network_configurator.Backend.Apply.{
  AreApart, AllHold, outcomes, push, apply_iface_dhcp-AllHold,
}
use go_network_configurator.Linux.Dhcp.{set_dhcp, set_dhcp_lem}
use go_network_configurator.Backups.{
  Files, Backup, outdated, backups_among, newer, prune_backups, remove_backups,
  suffix_backup_matcher,
}
use go_network_configurator.Backups.Newest.{Chosen, prune_backups_lem}
use go_network_configurator.Services.{ReadyProbe, wait_for_service_ready, why_timed_out}
use go_network_configurator.Services.Ready.{ticks, after, ready_by, wait_for_service_ready_lem}
use go_network_configurator.Tests.{Machine, file_backend, configurator, net10, start}

-- eth0 with or without DHCP, and with some DNS servers
abbrev on_eth0 : Bool → List Ip → Interface
on_eth0 dhcp4 dns = record {
  name = codes "eth0";
  mac = [];
  addresses = [];
  gateway4 = [];
  gateway6 = [];
  routes = [];
  dns = dns;
  up = true;
  physical = true;
  dhcp4 = dhcp4;
  dhcp6 = false;
  search_domains = [];
}

-- A backend that refuses every change, and reports DHCP and a DNS server on eth0
abbrev reporter : IfaceBackend Machine
reporter = record {
  name = codes "Netplan";
  set_iface_addresses = λ iface addrs gateway4 gateway6. raise (external 1);
  set_iface_routes = λ iface routes. raise (external 1);
  set_iface_dns = λ iface servers domains. raise (external 1);
  set_iface_dhcp = λ iface dhcp4 dhcp6. raise (external 1);
  get_interfaces = some (λ w. ok (on_eth0 true ((10 ∷ 0 ∷ 0 ∷ 2 ∷ []) ∷ []) ∷ []));
  renew_dhcp = none;
}

abbrev both : List (IfaceBackend Machine)
both = file_backend ∷ reporter ∷ []

merge_backend_state-IsMergeOf_example :
    Pointwise
      (λ i r. IsMergeOf i (reports_for i (all_reported both start)) r)
      (on_eth0 false [] ∷ [])
      (merge_backend_state both start (on_eth0 false [] ∷ []))
merge_backend_state-IsMergeOf_example =
    merge_backend_state-IsMergeOf both start (on_eth0 false [] ∷ []) (tt, tt)

abbrev addresses : List IpNet
addresses = net10 5 ∷ []

abbrev HasAddresses : IfaceBackend Machine → Machine → Type 0
HasAddresses b w = w.file_addresses ≡ addresses

both-AreApart :
    AreApart (λ b. b.set_iface_addresses (codes "eth0") addresses [] []) HasAddresses both
both-AreApart = ((λ w e. refl), ((λ w h. h), tt), ((λ w e. cc), tt, tt))

abbrev HasDhcp : IfaceBackend Machine → Machine → Type 0
HasDhcp b w = w.file_dhcp ≡ true

both-dhcp-AreApart : AreApart (λ b. b.set_iface_dhcp (codes "eth0") true false) HasDhcp both
both-dhcp-AreApart = ((λ w e. refl), ((λ w h. h), tt), ((λ w e. cc), tt, tt))

apply_iface_dhcp-AllHold_example :
    ((apply_iface_dhcp both (codes "eth0") true false start).0
      ≡ any (λ o. o) (outcomes (λ b. b.set_iface_dhcp (codes "eth0") true false) both start))
    × AllHold
        (λ b. b.set_iface_dhcp (codes "eth0") true false)
        HasDhcp
        both
        (outcomes (λ b. b.set_iface_dhcp (codes "eth0") true false) both start)
        (apply_iface_dhcp both (codes "eth0") true false start).1
apply_iface_dhcp-AllHold_example =
    apply_iface_dhcp-AllHold (codes "eth0") true false HasDhcp both both-dhcp-AreApart start

set_dhcp_lem_example :
    let accepted =
      any
        (λ o. o)
        (outcomes
          (λ b. b.set_iface_dhcp (codes "eth0") true false)
          configurator.iface_backends
          start) in
    let asked =
      push (λ b. b.set_iface_dhcp (codes "eth0") true false) configurator.iface_backends start in
    ((set_dhcp configurator (codes "eth0") true false start).0
      ≡ (if accepted then ok tt else err no_dhcp_backend))
    × ((set_dhcp configurator (codes "eth0") true false start).1 ≡ (
        if accepted && (true || false)
        then renew_dhcp_on_backends configurator.iface_backends (codes "eth0") asked
        else asked))
set_dhcp_lem_example = set_dhcp_lem configurator (codes "eth0") true false start

-- A directory of three backups, the removed names as the state
abbrev backup_dir : Files (List Bytes)
backup_dir = record {
  read_dir = λ dir w. ok (
      record { name = codes "a.bak.1"; is_dir = false; mod_time = some 1 }
      ∷ record { name = codes "a.bak.2"; is_dir = false; mod_time = some 2 }
      ∷ record { name = codes "a.bak.3"; is_dir = false; mod_time = some 3 }
      ∷ record { name = codes "a"; is_dir = false; mod_time = some 0 }
      ∷ []);
  remove = λ name w. (ok tt, w ++ name ∷ []);
}

oldest_goes :
    prune_backups backup_dir (codes "/etc") (suffix_backup_matcher (codes "a")) (pos 2) []
    ≡ codes "/etc/a.bak.1" ∷ []
unfolding prune_backups remove_backups outdated backups_among newer stable_sort
    suffix_backup_matcher bytes_eq
oldest_goes = refl

prune_backups_lem_example :
    (removed : List Backup) × (prune_backups backup_dir
        (codes "/etc")
        (suffix_backup_matcher (codes "a"))
        (pos 2)
        []
      ≡ remove_backups backup_dir (codes "/etc") removed [])
    × Chosen
        (backup_dir.read_dir (codes "/etc") [])
        (suffix_backup_matcher (codes "a"))
        (pos 2)
        removed
prune_backups_lem_example =
    prune_backups_lem backup_dir (codes "/etc") (suffix_backup_matcher (codes "a")) (pos 2) []

-- A service that is ready at the third probe
abbrev third : ReadyProbe ℕ
third zero = (err (external 2), 1)
third (suc zero) = (ok false, 2)
third (suc (suc n)) = (ok true, 3)

wait_for_service_ready_lem_example :
    (wait_for_service_ready third (pos 1) (external 4) (ticks 2) 0).0
    ≡ some (
        if ready_by third 2 0
        then ok tt
        else err (why_timed_out (external 4) (third (after third 2 0)).0))
wait_for_service_ready_lem_example = wait_for_service_ready_lem third (pos 1) (external 4) 2 0 refl
