-- ===== src/Linux/AddAddress/Addresses.antt =====
-- The addresses that AddAddress hands to the configuration files.
use go_network_configurator.Prelude.{
  ◌≡◌, Bool, not, ◌||◌, List, [], ◌∷◌, ◌++◌, map, select, any, arith, if◌then◌else◌, append_assoc,
  append-nil,
}
use go_network_configurator.Prelude.Exec.{ok, ◌>>=◌, >>=-eq-ok}
use go_network_configurator.Net.{IpNet, ip_equal, is_link_local}
use go_network_configurator.Host.{Host, Link, Addr}
use go_network_configurator.Linux.{LinuxConfigurator}
use go_network_configurator.Linux.AddAddress.{
  Existing, update_netmask, scan_addresses, add_if_new, note, no_addresses,
}

-- An address of the interface, with the new mask if it is the one that is added.
abbrev pub with_new_mask : IpNet → Addr → IpNet
with_new_mask addr a =
    if ip_equal a.ip_net.ip addr.ip then record (a.ip_net) { mask = addr.mask } else a.ip_net

abbrev pub is_routed : Addr → Bool
is_routed a = not (is_link_local a.ip_net.ip)

-- The addresses of the interface that are not link-local, with the new mask on the one that is
-- added; and the one that is added behind them, if it is not on the interface.
unfoldable pub file_addresses : IpNet → List Addr → List IpNet
file_addresses addr listed =
    let kept = map (with_new_mask addr) (select is_routed listed) in
    if any (λ a. ip_equal a.ip_net.ip addr.ip) listed then kept else kept ++ addr ∷ []

module _ {W : Type 0} (host : Host W) (link : Link) (addr : IpNet) where
  update_netmask-ok :
      (a : Addr) (w : W) {now : IpNet}
      → (update_netmask host link addr a w).0 ≡ ok now
      → now ≡ with_new_mask addr a
  unfolding update_netmask ◌>>=◌
  update_netmask-ok a w h = ground arith

  pub scan_addresses-ok :
      (listed : List Addr) (st : Existing) (w : W) {st' : Existing} {w' : W}
      → scan_addresses host link addr listed st w ≡ (ok st', w')
      → (st'.exists ≡ st.exists || any (λ a. ip_equal a.ip_net.ip addr.ip) listed)
        × (st'.addresses ≡ st.addresses ++ map (with_new_mask addr) (select is_routed listed))
        × (st'.orig_addresses ≡ st.orig_addresses ++ map (λ a. a.ip_net) (select is_routed listed))
  unfolding scan_addresses
  scan_addresses-ok [] st w h = (
    ground arith,
    ground (arith, append-nil st.addresses),
    ground (arith, append-nil st.orig_addresses),
  )
  scan_addresses-ok (a ∷ listed) st w h =
      let (now, updated, rest) = >>=-eq-ok (update_netmask host link addr a) _ w h in
      let (e1, e2, e3) =
        scan_addresses-ok listed (note (ip_equal a.ip_net.ip addr.ip) a now st) _ rest in
      let e = update_netmask-ok a w updated in
      (
        ground arith,
        ground (
          arith,
          append_assoc st.addresses (now ∷ []) (map (with_new_mask addr) (select is_routed listed)),
        ),
        ground (
          arith,
          append_assoc st.orig_addresses (a.ip_net ∷ [])
              (map (λ b. b.ip_net) (select is_routed listed)),
        ),
      )

  add_if_new-ok :
      (c : LinuxConfigurator W) (st : Existing) (w : W) {addresses : List IpNet}
      → (add_if_new host c link addr st w).0 ≡ ok addresses
      → addresses ≡ (if st.exists then st.addresses else st.addresses ++ addr ∷ [])
  unfolding add_if_new ◌>>=◌
  add_if_new-ok c st w h = ground arith

  pub listed-file_addresses :
      (c : LinuxConfigurator W) (listed : List Addr) (st : Existing) (w v : W) {w' : W}
      {addresses : List IpNet}
      → scan_addresses host link addr listed no_addresses w ≡ (ok st, w')
      → (add_if_new host c link addr st v).0 ≡ ok addresses
      → addresses ≡ file_addresses addr listed
  unfolding file_addresses
  listed-file_addresses c listed st w v h k =
      let (e1, e2, e3) = scan_addresses-ok listed no_addresses w h in
      ground (arith, add_if_new-ok c st v k)
