-- ===== src/Iface/Primary.antt =====
-- reorderPrimaryAddress makes the target the first address of its family.
use go_network_configurator.Prelude.{
  ◌≡◌, refl, true, false, not, List, [], ◌∷◌, if◌then◌else◌, arith, any, select, same,
}
use go_network_configurator.Net.{Ip, IpNet, ip_equal, is_v4}
use go_network_configurator.Net.Laws.{is_v4_congr}
use go_network_configurator.Iface.{without_target, reorder_primary_address}

abbrev others : IpNet → List IpNet → List IpNet
others target = select (λ a. not (ip_equal a.ip target.ip))

without_target_lem :
    (addrs : List IpNet) (target : IpNet)
    → without_target addrs target ≡ (any (λ a. ip_equal a.ip target.ip) addrs, others target addrs)
unfolding without_target
without_target_lem [] target = refl
without_target_lem (addr ∷ addrs) target = ground (arith, without_target_lem addrs target)

-- The addresses of the family that `ip` is not of.
abbrev pub other_family : Ip → List IpNet → List IpNet
other_family ip = select (λ a. not (same (is_v4 a.ip) (is_v4 ip)))

other_family-others :
    (target : IpNet) (addrs : List IpNet)
    → other_family target.ip (others target addrs) ≡ other_family target.ip addrs
other_family-others target [] = refl
other_family-others target (a ∷ addrs) =
    ground (arith, other_family-others target addrs, is_v4_congr a.ip target.ip)

-- Where the target is among the addresses, reorderPrimaryAddress puts it first, and every other
-- address follows in the order of the list; where it is not, it returns the list and false. Either
-- way the addresses of the other family are as they were.
pub reorder_primary_address_lem :
    (addrs : List IpNet) (target : IpNet)
    → (reorder_primary_address addrs target ≡ (
        if any (λ a. ip_equal a.ip target.ip) addrs
        then (target ∷ select (λ a. not (ip_equal a.ip target.ip)) addrs, true)
        else (addrs, false)))
      × (other_family target.ip (reorder_primary_address addrs target).0
          ≡ other_family target.ip addrs)
unfolding reorder_primary_address
reorder_primary_address_lem addrs target = (
  rw without_target_lem (ground arith),
  rw without_target_lem (ground (arith, other_family-others target addrs)),
)
