-- ===== src/Linux/AddAddress/AddressSet.antt =====
-- How AddAddress sets the address on the running system.
use go_network_configurator.Prelude.{
  ◌≡◌, ◌∙◌, ap, Bool, true, false, List, [], ◌∷◌, ◌++◌, map, select, if◌then◌else◌, Bool-cases, inl,
  inr,
}
use go_network_configurator.Prelude.Exec.{Exec, ok, pure, pair, ◌>>=◌, >>=-eq-ok}
use go_network_configurator.Net.{IpNet, ip_equal}
use go_network_configurator.Host.{Host, Link, Addr, ping_test}
use go_network_configurator.Linux.{LinuxConfigurator}
use go_network_configurator.Linux.Performed.{Performed}
use go_network_configurator.Linux.AddAddress.{
  Existing, update_netmask, scan_addresses, add_if_new, note,
}

-- An address of the interface with the mask of the one that is added
abbrev pub remasked : IpNet → Addr → Addr
remasked addr a = record a { ip_net = record (a.ip_net) { mask = addr.mask } }

abbrev pub is_same : IpNet → Addr → Bool
is_same addr a = ip_equal a.ip_net.ip addr.ip

-- The address answered no ping, and was added then.
abbrev pub Added : {W : Type 0} → Host W → LinuxConfigurator W → Link → IpNet → W → W → Type 0
Added {W} host c link addr w w' =
    (v : W) × (ping_test host addr.ip c.options.ping_count c.options.ping_timeout w ≡ (ok false, v))
    × (host.addr_add link (record { ip_net = addr; attributes = 0 }) v ≡ (ok tt, w'))

-- A call before a result that is only handed on
last_call :
    {W A : Type 0} (m : Exec W (Unit {0})) (a : A) (w : W) {b : A} {w' : W}
    → (m >>= λ u. pure a) w ≡ (ok b, w')
    → m w ≡ (ok tt, w')
last_call m a w h =
    let (u, d, h1) = >>=-eq-ok m (λ u. pure a) w h in
    pair m w d ∙ ap (λ v. (ok tt, v)) (ap (λ r. r.1) h1)

module _ {W : Type 0} (host : Host W) (link : Link) (addr : IpNet) where
  update_netmask-same :
      (a : Addr) (w : W) {now : IpNet} {w' : W}
      → is_same addr a ≡ true
      → update_netmask host link addr a w ≡ (ok now, w')
      → host.addr_replace link (remasked addr a) w ≡ (ok tt, w')
  unfolding update_netmask
  update_netmask-same a w e h = last_call (host.addr_replace link (remasked addr a)) _ w (rw e at h)

  update_netmask-other :
      (a : Addr) (w : W) {now : IpNet} {w' : W}
      → is_same addr a ≡ false
      → update_netmask host link addr a w ≡ (ok now, w')
      → w ≡ w'
  unfolding update_netmask
  update_netmask-other a w e h = ap (λ r. r.1) (rw e at h)

  pub scan_addresses-Performed :
      (listed : List Addr) (st : Existing) (w : W) {st' : Existing} {w' : W}
      → scan_addresses host link addr listed st w ≡ (ok st', w')
      → Performed (host.addr_replace link) (map (remasked addr) (select (is_same addr) listed)) w w'
  unfolding scan_addresses Performed
  scan_addresses-Performed [] st w h = ap (λ r. r.1) h
  scan_addresses-Performed (a ∷ listed) st w h =
      let update = update_netmask host link addr a in
      let (now, d, rest) = >>=-eq-ok update _ w h in
      let later =
        scan_addresses-Performed listed (note (is_same addr a) a now st) (update w).1 rest in
      elim (Bool-cases (is_same addr a)) [
        | inl e ↦ rw e ((update w).1, update_netmask-same a w e (pair update w d), later)
        | inr e ↦ rw e (rw (← (update_netmask-other a w e (pair update w d))) at later)
      ]

  pub add_if_new-Added :
      (c : LinuxConfigurator W) (st : Existing) (w : W) {addresses : List IpNet} {w' : W}
      → add_if_new host c link addr st w ≡ (ok addresses, w')
      → if st.exists then (w ≡ w') else Added host c link addr w w'
  unfolding add_if_new
  add_if_new-Added c st w h = elim (Bool-cases st.exists) [
    | inl e ↦ rw e (ap (λ r. r.1) (rw e at h))
    | inr e ↦
        let ping = ping_test host addr.ip c.options.ping_count c.options.ping_timeout in
        let add = host.addr_add link (record { ip_net = addr; attributes = 0 }) in
        let (responds, d, h1) = >>=-eq-ok ping _ w (rw e at h) in
        elim (Bool-cases responds) [
          | inl y ↦ cc (rw y at h1)
          | inr n ↦ rw e (
            (ping w).1,
            pair ping w (d ∙ ap ok n),
            last_call add (st.addresses ++ addr ∷ []) (ping w).1 (rw n at h1),
          )
        ]
  ]
