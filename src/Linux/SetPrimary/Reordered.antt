-- ===== src/Linux/SetPrimary/Reordered.antt =====
-- The new order of SetPrimaryAddress on the running system.
use go_network_configurator.Prelude.{
  ◌≡◌, ap, ◌&&◌, List, [], ◌∷◌, any, Option, none, some, if◌then◌else◌, arith, Bool-cases, inl, inr,
}
use go_network_configurator.Prelude.Exec.{ok, reads, raise, ◌>>◌, >>=-eq-ok, pair, internet_lost}
use go_network_configurator.Net.{IpNet, ip_equal, is_nil}
use go_network_configurator.Host.{Host, Link, Addr, NlRoute, Family}
use go_network_configurator.Linux.{LinuxConfigurator, family_of, is_default}
use go_network_configurator.Linux.Online.{Tested, tested_by, Fails-then, Fails-raise}
use go_network_configurator.Linux.RemoveAddress.{gw_of}
use go_network_configurator.Linux.Performed.{Performed}
use go_network_configurator.Linux.SetPrimary.{
  desired_order, is_first, remove_all, replace_all, restore_default, reapply, confirm_order,
  reorder,
}

module _ {W : Type 0} (host : Host W) where
  -- The default route was put back, if the machine listed no default route by its gateway.
  abbrev pub Restored : Link → Family → Option NlRoute → W → W → Type 0
  Restored link family none w w' = w ≡ w'
  Restored link family (some route) w w' =
      (cur : List NlRoute) × (host.route_list link family w ≡ ok cur)
      × (if any (λ r. is_default r && ip_equal r.gw route.gw) cur
          then (w ≡ w')
          else (host.route_replace route w ≡ (ok tt, w')))

  -- The addresses were deleted and then added in the order, the default route was put back, and the
  -- internet was tested; nothing else happened.
  pub record Reordered (c : LinuxConfigurator W) (link : Link) (family : Family)
      (addrs order : List Addr) (route : Option NlRoute) (w w' : W) : Type 0 where
    pub removed : W
    pub all_removed : Performed (host.addr_del link) addrs w removed
    pub added : W
    pub all_added : Performed (host.addr_replace link) order removed added
    pub routed : W
    pub restored : Restored link family route added routed
    pub tested : Tested host c (gw_of route) routed w'

  remove_all-Performed :
      (link : Link) (addrs : List Addr) (w : W) {w' : W}
      → remove_all host link addrs w ≡ (ok tt, w')
      → Performed (host.addr_del link) addrs w w'
  unfolding remove_all Performed
  remove_all-Performed link [] w h = ap (λ r. r.1) h
  remove_all-Performed link (a ∷ addrs) w h =
      let (u, d, h1) = >>=-eq-ok (host.addr_del link a) _ w h in
      (_, pair (host.addr_del link a) w d, remove_all-Performed link addrs _ h1)

  replace_all-Performed :
      (link : Link) (addrs : List Addr) (w : W) {w' : W}
      → replace_all host link addrs w ≡ (ok tt, w')
      → Performed (host.addr_replace link) addrs w w'
  unfolding replace_all Performed
  replace_all-Performed link [] w h = ap (λ r. r.1) h
  replace_all-Performed link (a ∷ addrs) w h =
      let (u, d, h1) = >>=-eq-ok (host.addr_replace link a) _ w h in
      (_, pair (host.addr_replace link a) w d, replace_all-Performed link addrs _ h1)

  restore_default-Restored :
      (link : Link) (family : Family) (route : Option NlRoute) (w : W) {w' : W}
      → restore_default host link family route w ≡ (ok tt, w')
      → Restored link family route w w'
  unfolding restore_default
  restore_default-Restored link family none w h = ap (λ r. r.1) h
  restore_default-Restored link family (some route) w h =
      let (cur, d, h1) = >>=-eq-ok (reads (host.route_list link family)) _ w h in
      (
        cur,
        d,
        elim (Bool-cases (any (λ r. is_default r && ip_equal r.gw route.gw) cur)) [
          | inl there ↦ rw there (ap (λ r. r.1) (rw there at h1))
          | inr gone ↦ rw gone (rw gone at h1)
        ],
      )

  confirm_order-Tested :
      (c : LinuxConfigurator W) (link : Link) (family : Family) (addrs : List Addr)
      (route : Option NlRoute) (w : W) {w' : W}
      → confirm_order host c link family addrs route w ≡ (ok tt, w')
      → Tested host c (gw_of route) w w'
  unfolding confirm_order
  confirm_order-Tested c link family addrs none w h = ap (λ r. r.1) h
  confirm_order-Tested c link family addrs (some route) w h =
      elim (Bool-cases c.options.skip_connectivity_check) [
        | inl skip ↦ rw skip (ground arith)
        | inr check ↦ elim (Bool-cases (is_nil route.gw)) [
          | inl unset ↦ rw (check, unset) (ap (λ r. r.1) (rw (check, unset) at h))
          | inr given ↦
              let put_back = reapply host link family addrs (some route) addrs in
              rw (check, given)
                (tested_by host c route.gw tt (put_back >> raise internet_lost) w
                  (Fails-then put_back _ (λ x. Fails-raise internet_lost)) (rw (check, given) at h))
        ]
      ]

  pub reorder-Reordered :
      (c : LinuxConfigurator W) (link : Link) (addr : IpNet) (addrs : List Addr)
      (route : Option NlRoute) (w : W) {w' : W}
      → reorder host c link addr addrs route w ≡ (ok tt, w')
      → if is_first addr.ip addrs
        then (w ≡ w')
        else Reordered c link (family_of addr.ip) addrs (desired_order addr.ip addrs) route w w'
  unfolding reorder reapply
  reorder-Reordered c link addr addrs route w h = elim (Bool-cases (is_first addr.ip addrs)) [
    | inl first ↦ rw first (ap (λ r. r.1) (rw first at h))
    | inr later ↦
        let order = desired_order addr.ip addrs in
        let family = family_of addr.ip in
        let again = reapply host link family addrs route order in
        let (u, d, h1) = >>=-eq-ok again _ w (rw later at h) in
        let (u2, d2, h2) = >>=-eq-ok (remove_all host link addrs) _ w (pair again w d) in
        let (u3, d3, h3) = >>=-eq-ok (replace_all host link order) _ _ h2 in
        rw later (record {
          removed = (remove_all host link addrs w).1;
          all_removed = remove_all-Performed link addrs w (pair (remove_all host link addrs) w d2);
          added = (replace_all host link order (remove_all host link addrs w).1).1;
          all_added = replace_all-Performed link order _ (pair (replace_all host link order) _ d3);
          routed = (again w).1;
          restored = restore_default-Restored link family route _ h3;
          tested = confirm_order-Tested c link family addrs route _ h1;
        })
  ]
