-- ===== src/Linux/AddAddress/Confirmed.antt =====
-- What the connectivity check of AddAddress makes of the loop's variables.
use go_network_configurator.Prelude.{◌≡◌, ◌∙◌, Option, arith, if◌then◌else◌, Bool-cases, inl, inr}
use go_network_configurator.Prelude.Exec.{ok, pure, ◌>>=◌, ◌>>◌, >>=-eq-ok}
use go_network_configurator.Net.{IpNet, is_v4, is_nil}
use go_network_configurator.Host.{Host, Link, NlRoute, ping_test, test_internet}
use go_network_configurator.Linux.{LinuxConfigurator}
use go_network_configurator.Linux.AddAddress.{
  Existing, Gateways, add_missing_gateway, roll_back, confirm, capture_missing,
}
use go_network_configurator.Linux.AddAddress.DefaultRoutes.{confirmed}

module _ {W : Type 0} (host : Host W) where
  add_missing_gateway-ok :
      (link : Link) (addr : IpNet) (g : Gateways) (w : W) {p : Option NlRoute × Gateways}
      → (add_missing_gateway host link addr g w).0 ≡ ok p
      → p.1 ≡ (
          if (if is_v4 addr.ip then is_nil g.gateway4 else is_nil g.gateway6)
          then capture_missing addr.ip g
          else g)
  unfolding add_missing_gateway ◌>>=◌
  add_missing_gateway-ok link addr g w h = ground arith

  -- The connectivity check of a change, once a missing gateway is added.
  verified-ok :
      (c : LinuxConfigurator W) (link : Link) (addr : IpNet) (st : Existing)
      (p : Option NlRoute × Gateways) (w : W) {g' : Gateways} {w' : W}
      → (if c.options.skip_connectivity_check then pure p.1 else do
        ping_test host p.1.gateway c.options.ping_count c.options.ping_timeout
        online ← test_internet host c.options.test_address c.options.connectivity_timeout
        if online then pure p.1 else do roll_back host link addr st p.1.orig_route p.0; pure p.1)
          w
        ≡ (ok g', w')
      → g' ≡ p.1
  verified-ok c link addr st p w h = elim (Bool-cases c.options.skip_connectivity_check) [
    | inl skip ↦ cc (rw skip at h)
    | inr check ↦
        let (b1, d1, h1) = >>=-eq-ok (ping_test host p.1.gateway _ _) _ w (rw check at h) in
        let (online, d2, h2) = >>=-eq-ok (test_internet host c.options.test_address _) _ _ h1 in
        elim (Bool-cases online) [
          | inl yes_ ↦ cc
          | inr off ↦
              let (u, d3, h3) =
                >>=-eq-ok (roll_back host link addr st p.1.orig_route p.0) _ _ (rw off at h2) in
              cc h3
        ]
  ]

  pub confirm-ok :
      (c : LinuxConfigurator W) (link : Link) (addr : IpNet) (st : Existing) (g : Gateways) (w : W)
      {g' : Gateways} {w' : W}
      → confirm host c link addr st g w ≡ (ok g', w')
      → g' ≡ confirmed addr g
  unfolding confirm
  confirm-ok c link addr st g w h = elim (Bool-cases (is_nil g.gateway)) [
    | inl none_ ↦ rw none_ (cc (rw none_ at h))
    | inr given ↦
        let (p, d, h1) = >>=-eq-ok (add_missing_gateway host link addr g) _ w (rw given at h) in
        rw given (verified-ok c link addr st p _ h1 ∙ add_missing_gateway-ok link addr g w d)
  ]
