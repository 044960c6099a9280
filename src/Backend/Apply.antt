-- ===== src/Backend/Apply.antt =====
-- A change is pushed to every backend, whatever the others answer.
use go_network_configurator.Prelude.{
  ◌≡◌, refl, ◌∙◌, Bool, true, false, ◌||◌, List, [], ◌∷◌, Bytes, arith, if◌then◌else◌, any, All,
}
use go_network_configurator.Prelude.Exec.{Exec, attempt}
use go_network_configurator.Net.{Ip, IpNet}
use go_network_configurator.Backend.{
  IfaceBackend, PanelBackend, is_ok, apply_iface_addresses, dhcp_loop, apply_iface_dhcp,
  reload_panels, set_main_ip_on_panels, remove_ip_from_panels,
}

module _ {W B : Type 0} (op : B → Exec W (Unit {0})) where
  -- All backends in turn.
  pub push : List B → W → W
  push [] w = w
  push (b ∷ backends) w = push backends (attempt (op b) w)

  -- Whether each backend accepts the change in its turn.
  unfoldable pub outcomes : List B → W → List Bool
  outcomes [] w = []
  outcomes (b ∷ backends) w = is_ok (op b w).0 ∷ outcomes backends (op b w).1

where_accepted : (o : Bool) (P : Type 0) → (o ≡ true → P) → if o then P else Unit
where_accepted true P f = f refl
where_accepted false P f = tt

module _ {W B : Type 0} (op : B → Exec W (Unit {0})) (Holds : B → W → Type 0) where
  -- The backends of a list keep their configuration apart: one that accepts the change holds it,
  -- and still does after a later one is asked for the change.
  abbrev pub AreApart : List B → Type 0
  AreApart [] = Unit
  AreApart (b ∷ backends) =
      ((w : W) → is_ok (op b w).0 ≡ true → Holds b (op b w).1)
      × All (λ c. (w : W) → Holds b w → Holds b (op c w).1) backends
      × AreApart backends

  -- Every backend that accepted the change, by the list of outcomes, holds it in `w`.
  abbrev pub AllHold : List B → List Bool → W → Type 0
  AllHold [] os w = Unit
  AllHold (b ∷ backends) [] w = Unit
  AllHold (b ∷ backends) (o ∷ os) w = (if o then Holds b w else Unit) × AllHold backends os w

  push-Holds :
      (b : B) (backends : List B) (w : W)
      → All (λ c. (w : W) → Holds b w → Holds b (op c w).1) backends
      → Holds b w
      → Holds b (push op backends w)
  unfolding push
  push-Holds b [] w untouched h = h
  push-Holds b (c ∷ backends) w untouched h =
      push-Holds b backends (op c w).1 untouched.1 (untouched.0 w h)

  push-AllHold :
      (backends : List B)
      → AreApart backends
      → (w : W) → AllHold backends (outcomes op backends w) (push op backends w)
  unfolding push outcomes
  push-AllHold [] apart w = tt
  push-AllHold (b ∷ backends) (written, untouched, apart) w = (
    where_accepted (is_ok (op b w).0) (Holds b (push op backends (op b w).1))
        (λ e. push-Holds b backends (op b w).1 untouched (written w e)),
    push-AllHold backends apart (op b w).1,
  )

module _ {W : Type 0} where
  pub reload_panels-eq-push :
      (panels : List (PanelBackend W)) (w : W)
      → reload_panels panels w ≡ push (λ p. p.reload) panels w
  unfolding reload_panels push
  reload_panels-eq-push [] w = refl
  reload_panels-eq-push (p ∷ panels) w = reload_panels-eq-push panels (attempt p.reload w)

  pub set_main_ip_on_panels-eq-push :
      (ip : Ip) (panels : List (PanelBackend W)) (w : W)
      → set_main_ip_on_panels panels ip w ≡ push (λ p. p.set_main_ip ip) panels w
  unfolding set_main_ip_on_panels push
  set_main_ip_on_panels-eq-push ip [] w = refl
  set_main_ip_on_panels-eq-push ip (p ∷ panels) w =
      set_main_ip_on_panels-eq-push ip panels (attempt (p.set_main_ip ip) w)

  pub remove_ip_from_panels-eq-push :
      (ip : Ip) (panels : List (PanelBackend W)) (w : W)
      → remove_ip_from_panels panels ip w ≡ push (λ p. p.remove_ip ip) panels w
  unfolding remove_ip_from_panels push
  remove_ip_from_panels-eq-push ip [] w = refl
  remove_ip_from_panels-eq-push ip (p ∷ panels) w =
      remove_ip_from_panels-eq-push ip panels (attempt (p.remove_ip ip) w)

module _ {W : Type 0} (iface : Bytes) where
  pub apply_iface_addresses-eq-push :
      (addrs : List IpNet) (gateway4 gateway6 : Ip) (backends : List (IfaceBackend W)) (w : W)
      → apply_iface_addresses backends iface addrs gateway4 gateway6 w
        ≡ push (λ b. b.set_iface_addresses iface addrs gateway4 gateway6) backends w
  unfolding apply_iface_addresses push
  apply_iface_addresses-eq-push addrs gateway4 gateway6 [] w = refl
  apply_iface_addresses-eq-push addrs gateway4 gateway6 (b ∷ backends) w =
      apply_iface_addresses-eq-push addrs gateway4 gateway6 backends
        (attempt (b.set_iface_addresses iface addrs gateway4 gateway6) w)

  dhcp_loop-eq-push :
      (dhcp4 dhcp6 : Bool) (backends : List (IfaceBackend W)) (applied : Bool) (w : W)
      → dhcp_loop backends iface dhcp4 dhcp6 applied w ≡ (
        applied || any (λ o. o) (outcomes (λ b. b.set_iface_dhcp iface dhcp4 dhcp6) backends w),
        push (λ b. b.set_iface_dhcp iface dhcp4 dhcp6) backends w,
      )
  unfolding dhcp_loop push outcomes
  dhcp_loop-eq-push dhcp4 dhcp6 [] applied w = ground arith
  dhcp_loop-eq-push dhcp4 dhcp6 (b ∷ backends) applied w =
      let (r, w') = b.set_iface_dhcp iface dhcp4 dhcp6 w in
      dhcp_loop-eq-push dhcp4 dhcp6 backends (if is_ok r then true else applied) w' ∙ ground arith

  pub apply_iface_dhcp-eq-push :
      (dhcp4 dhcp6 : Bool) (backends : List (IfaceBackend W)) (w : W)
      → apply_iface_dhcp backends iface dhcp4 dhcp6 w ≡ (
        any (λ o. o) (outcomes (λ b. b.set_iface_dhcp iface dhcp4 dhcp6) backends w),
        push (λ b. b.set_iface_dhcp iface dhcp4 dhcp6) backends w,
      )
  unfolding apply_iface_dhcp
  apply_iface_dhcp-eq-push dhcp4 dhcp6 backends w = dhcp_loop-eq-push dhcp4 dhcp6 backends false w

-- Where the backends keep their configuration apart, so that what one has accepted outlasts the
-- later ones' turns, applyIfaceAddresses leaves the new addresses
-- in every backend that accepted them in its turn, whichever others failed.
pub apply_iface_addresses-AllHold :
    {W : Type 0} (iface : Bytes) (addrs : List IpNet) (gateway4 gateway6 : Ip)
    (Holds : IfaceBackend W → W → Type 0) (backends : List (IfaceBackend W))
    → AreApart (λ b. b.set_iface_addresses iface addrs gateway4 gateway6) Holds backends
    → (w : W)
    → AllHold
        (λ b. b.set_iface_addresses iface addrs gateway4 gateway6)
        Holds
        backends
        (outcomes (λ b. b.set_iface_addresses iface addrs gateway4 gateway6) backends w)
        (apply_iface_addresses backends iface addrs gateway4 gateway6 w)
apply_iface_addresses-AllHold iface addrs gateway4 gateway6 Holds backends apart w =
    rw apply_iface_addresses-eq-push (
      push-AllHold (λ b. b.set_iface_addresses iface addrs gateway4 gateway6) Holds backends apart
        w)

-- Where the backends keep their configuration apart, so that what one has accepted outlasts the
-- later ones' turns, applyIfaceDHCP answers whether some backend
-- accepted the change, and leaves it in every backend that did, whichever others failed.
pub apply_iface_dhcp-AllHold :
    {W : Type 0} (iface : Bytes) (dhcp4 dhcp6 : Bool) (Holds : IfaceBackend W → W → Type 0)
    (backends : List (IfaceBackend W))
    → AreApart (λ b. b.set_iface_dhcp iface dhcp4 dhcp6) Holds backends
    → (w : W)
    → ((apply_iface_dhcp backends iface dhcp4 dhcp6 w).0
        ≡ any (λ o. o) (outcomes (λ b. b.set_iface_dhcp iface dhcp4 dhcp6) backends w))
      × AllHold
          (λ b. b.set_iface_dhcp iface dhcp4 dhcp6)
          Holds
          backends
          (outcomes (λ b. b.set_iface_dhcp iface dhcp4 dhcp6) backends w)
          (apply_iface_dhcp backends iface dhcp4 dhcp6 w).1
unfolding apply_iface_dhcp
apply_iface_dhcp-AllHold iface dhcp4 dhcp6 Holds backends apart w =
    rw dhcp_loop-eq-push
      (refl, push-AllHold (λ b. b.set_iface_dhcp iface dhcp4 dhcp6) Holds backends apart w)
