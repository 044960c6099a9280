-- ===== src/Iface/Ranking.antt =====
-- FindPhysicalInterfaces ranks the physical interfaces by a strict weak order, stably.
use mathlib.Core.List.{Perm}
use mathlib.Core.Path.{fun_ext}
use go_network_configurator.Prelude.{ℕ, ◌≡◌, Bool, List, if◌then◌else◌, arith, select}
use go_network_configurator.Natural.{natural_less}
use go_network_configurator.Natural.Order.{IsStrictWeak, natural_less-IsStrictWeak}
use go_network_configurator.Iface.{
  Interface, gateway_rank, iface_name_rank, prefer_interface, find_physical_interfaces,
}
use go_network_configurator.Iface.Order.{
  by_rank, by_rank-IsStrictWeak, pullback-IsStrictWeak, IsSorted, tie, stable_sort-perm,
  stable_sort-IsSorted, select-stable_sort,
}

up_rank : Interface → ℕ
up_rank i = if i.up then 0 else 1

-- preferInterface compares these four, in this order.
abbrev lexicographic : Interface → Interface → Bool
lexicographic = by_rank up_rank (
    by_rank gateway_rank
      (by_rank (λ i. iface_name_rank i.name) (λ a b. natural_less a.name b.name)))

lexicographic-IsStrictWeak : IsStrictWeak lexicographic
lexicographic-IsStrictWeak = by_rank-IsStrictWeak up_rank (
    by_rank-IsStrictWeak gateway_rank (
      by_rank-IsStrictWeak (λ i. iface_name_rank i.name)
        (pullback-IsStrictWeak (λ i. i.name) natural_less-IsStrictWeak)))

prefer_interface-eq-lexicographic : (a b : Interface) → prefer_interface a b ≡ lexicographic a b
unfolding prefer_interface up_rank
prefer_interface-eq-lexicographic a b = ground arith

prefer_interface_lem : prefer_interface ≡ lexicographic
prefer_interface_lem = fun_ext λ a. fun_ext λ b. prefer_interface-eq-lexicographic a b

-- preferInterface is a strict weak order on interfaces.
pub prefer_interface-IsStrictWeak : IsStrictWeak prefer_interface
prefer_interface-IsStrictWeak = rw prefer_interface_lem lexicographic-IsStrictWeak

-- What FindPhysicalInterfaces promises of its result.
pub record IsRanking (ifaces ranked : List Interface) : Type 0 where
  pub same_interfaces : Perm ranked (select (λ i. i.physical) ifaces)
  pub sorted : IsSorted prefer_interface ranked
  pub stable :
      (a : Interface)
      → select (tie prefer_interface a) ranked
        ≡ select (tie prefer_interface a) (select (λ i. i.physical) ifaces)

-- FindPhysicalInterfaces returns the physical interfaces, each as often as it is listed, none
-- after one that preferInterface puts behind it, and those that tie in the order of the list.
pub find_physical_interfaces-IsRanking :
    (ifaces : List Interface) → IsRanking ifaces (find_physical_interfaces ifaces)
unfolding find_physical_interfaces
find_physical_interfaces-IsRanking ifaces = record {
  same_interfaces = stable_sort-perm prefer_interface (select (λ i. i.physical) ifaces);
  sorted = stable_sort-IsSorted prefer_interface-IsStrictWeak (select (λ i. i.physical) ifaces);
  stable =
      λ a. select-stable_sort prefer_interface-IsStrictWeak a (select (λ i. i.physical) ifaces);
}
