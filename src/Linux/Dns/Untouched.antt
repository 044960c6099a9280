-- ===== src/Linux/Dns/Untouched.antt =====
-- Clearing the DNS servers of an interface never rewrites /etc/resolv.conf.
use go_network_configurator.Prelude.{◌≡◌, refl, ◌∙◌, true, ◌&&◌, List, Bytes, Bool-cases, inl, inr}
use go_network_configurator.Net.{Ip}
use go_network_configurator.Host.Keeps.{Keeps}
use go_network_configurator.Linux.Dns.{
  Resolver, resolvectl_bin, ip_strings, has_none, apply_resolvectl_dns, rewrite_unless_empty,
  apply_live_dns,
}

module _ {W V : Type 0} {view : W → V} (resolver : Resolver W)
    (runs : (args : List Bytes) → Keeps view (resolver.run args)) where
  apply_resolvectl_dns-keeps :
      (iface : Bytes) (servers domains : List Bytes) (w : W)
      → view (apply_resolvectl_dns resolver iface servers domains w).1 ≡ view w
  unfolding apply_resolvectl_dns
  apply_resolvectl_dns-keeps iface servers domains w =
      elim (Bool-cases (has_none servers && has_none domains)) [
        | inl y ↦ rw y ((runs _).at w)
        | inr n ↦ rw n ((runs _).at _ ∙ (runs _).at w)
      ]

  rewrite-keeps :
      (servers domains : List Bytes) (w : W)
      → has_none servers ≡ true
      → view (rewrite_unless_empty resolver servers domains w) ≡ view w
  unfolding rewrite_unless_empty
  rewrite-keeps servers domains w h = rw h refl

  -- Where no server is asked for, nil ones aside, applyLiveDNS leaves what the commands do not
  -- touch, such as /etc/resolv.conf, as it was, whether resolvectl is there and succeeds or not.
  pub apply_live_dns-keeps :
      (iface : Bytes) (servers : List Ip) (domains : List Bytes) (w : W)
      → has_none (ip_strings resolver.ip_string servers) ≡ true
      → view (apply_live_dns resolver iface servers domains w) ≡ view w
  unfolding apply_live_dns
  apply_live_dns-keeps iface servers domains w h =
      let strs = ip_strings resolver.ip_string servers in
      elim (Bool-cases (resolver.on_path resolvectl_bin w)) [
        | inr n ↦ rw n (rewrite-keeps strs domains w h)
        | inl y ↦
            let (applied, w') = apply_resolvectl_dns resolver iface strs domains w in
            let kept = apply_resolvectl_dns-keeps iface strs domains w in
            elim (Bool-cases applied) [
              | inl a ↦ rw (y, a) kept
              | inr b ↦ rw (y, b) (rewrite-keeps strs domains w' h ∙ kept)
            ]
      ]
