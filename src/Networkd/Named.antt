-- ===== src/Networkd/Named.antt =====
-- A method that succeeds has changed every network of the name, and no other.
use go_network_configurator.Prelude.{
  ◌≡◌, refl, ◌∙◌, ap, sym, Bool, true, false, List, [], ◌∷◌, if◌then◌else◌, Bytes, bytes_eq, map,
  All, Bool-cases, inl, inr, ℤ,
}
use go_network_configurator.Prelude.Exec.{Exec, Result, ok, err, ◌>>◌, >>=-eq-ok}
use go_network_configurator.Iface.{Interface}
use go_network_configurator.NetTexts.{Texts}
use go_network_configurator.Networkd.{Ini, NetworkdNetwork, Networkd}
use go_network_configurator.Networkd.Report.{report, get_interfaces}
use go_network_configurator.Networkd.Assembled.{report-eq-parts}
use go_network_configurator.Networkd.Save.{Disk, save, replace_files, finish_save}
use go_network_configurator.Networkd.Update.{
  on_config, for_named, update_named, Outcome, behind, after_body,
}

module _ {W F : Type 0} (disk : Disk W F) (dir : Bytes) (retention : ℤ)
    (change : Exec F (Unit {0})) where
  abbrev body : Exec (NetworkdNetwork F × W) (Unit {0})
  body = on_config change >> save disk dir retention

  finish-kept :
      (n : NetworkdNetwork F) (r : Result (Unit {0})) (w : W) {n' : NetworkdNetwork F} {w' : W}
      → finish_save disk dir retention n r w ≡ (ok tt, (n', w'))
      → n' ≡ record n { sub_files = [] }
  unfolding finish_save
  finish-kept n (ok u) w h = cc
  finish-kept n (err e) w h = cc

  -- A save that succeeds leaves the configuration, the name and the MAC address.
  save-kept :
      (n : NetworkdNetwork F) (w : W) {n' : NetworkdNetwork F} {w' : W}
      → save disk dir retention (n, w) ≡ (ok tt, (n', w'))
      → n' ≡ record n { sub_files = [] }
  unfolding save
  save-kept n w h = finish-kept n (replace_files disk dir n w).0 (replace_files disk dir n w).1 h

  changed :
      (n : NetworkdNetwork F) (w : W) {n' : NetworkdNetwork F} {w' : W}
      → body (n, w) ≡ (ok tt, (n', w'))
      → ((change n.config).0 ≡ ok tt)
        × (n' ≡ record n { config = (change n.config).1; sub_files = [] })
  unfolding on_config
  changed n w h =
      let (u, e, saved) = >>=-eq-ok (on_config change) (λ v. save disk dir retention) (n, w) h in
      (e, save-kept (record n { config = (change n.config).1 }) w saved)

  module _ {S : Type 0} (ini : Ini F S) (texts : Texts) (iface : Bytes)
      (put : Interface → Interface) (Fits : F → Type 0)
      (step : (n : NetworkdNetwork F)
        → Fits n.config
        → (change n.config).0 ≡ ok tt
        → report ini texts (record n { config = (change n.config).1; sub_files = [] })
          ≡ put (report ini texts n)) where
    abbrev pub put_named : Interface → Interface
    put_named i = if bytes_eq i.name iface then put i else i

    abbrev pub AllFit : List (NetworkdNetwork F) → Type 0
    AllFit networks = All (λ n. bytes_eq n.name iface ≡ true → Fits n.config) networks

    put_named-report :
        (n : NetworkdNetwork F) (b : Bool)
        → bytes_eq n.name iface ≡ b
        → put_named (report ini texts n)
          ≡ (if b then put (report ini texts n) else report ini texts n)
    put_named-report n b e =
        ap (λ name. if bytes_eq name iface then put (report ini texts n) else report ini texts n)
          (ap (λ i. i.name) (report-eq-parts ini texts n))
        ∙ rw e refl

    behind-reports :
        (n n' : NetworkdNetwork F) (networks : List (NetworkdNetwork F)) (rest : W → Outcome W F)
        (w : W)
        → report ini texts n' ≡ put_named (report ini texts n)
        → (behind n' rest w).0 ≡ ok tt
        → ((rest w).0 ≡ ok tt
            → map (report ini texts) (rest w).1 ≡ map put_named (map (report ini texts) networks))
        → map (report ini texts) (behind n' rest w).1
          ≡ map put_named (map (report ini texts) (n ∷ networks))
    behind-reports n n' networks rest w e h ih =
        ap (λ i. i ∷ map (report ini texts) (rest w).1) e
        ∙ ap (λ is_. put_named (report ini texts n) ∷ is_) (ih h)

    after_body-ok :
        (r : Result (Unit {0})) (n : NetworkdNetwork F) (networks : List (NetworkdNetwork F))
        (rest : W → Outcome W F) (w : W)
        → (after_body r n networks rest w).0 ≡ ok tt
        → (r ≡ ok tt) × (after_body r n networks rest w ≡ behind n rest w)
    unfolding after_body
    after_body-ok (ok u) n networks rest w h = (refl, refl)
    after_body-ok (err e) n networks rest w h = cc

    this-reports :
        (n : NetworkdNetwork F) (networks : List (NetworkdNetwork F)) (rest : W → Outcome W F)
        (w : W) (r : Result (Unit {0})) (n' : NetworkdNetwork F) (w' : W)
        → body (n, w) ≡ (r, (n', w'))
        → bytes_eq n.name iface ≡ true
        → Fits n.config
        → (after_body r n' networks rest w').0 ≡ ok tt
        → ((rest w').0 ≡ ok tt
            → map (report ini texts) (rest w').1 ≡ map put_named (map (report ini texts) networks))
        → map (report ini texts) (after_body r n' networks rest w').1
          ≡ map put_named (map (report ini texts) (n ∷ networks))
    this-reports n networks rest w r n' w' b e fits h ih =
        let (done, shape) = after_body-ok r n' networks rest w' h in
        let (written, kept) = changed n w (b ∙ ap (λ x. (x, (n', w'))) done) in
        let here =
          ap (report ini texts) kept ∙ step n fits written ∙ sym (put_named-report n true e) in
        ap (λ (o : Outcome W F). map (report ini texts) o.1) shape
        ∙ behind-reports n n' networks rest w' here (ap (λ (o : Outcome W F). o.0) (sym shape) ∙ h)
            ih

    pub for_named-reports :
        (networks : List (NetworkdNetwork F)) (w : W)
        → AllFit networks
        → (for_named body iface networks w).0 ≡ ok tt
        → map (report ini texts) (for_named body iface networks w).1
          ≡ map put_named (map (report ini texts) networks)
    unfolding for_named
    for_named-reports [] w fit h = refl
    for_named-reports (n ∷ networks) w (fits, fit) h = elim (Bool-cases (bytes_eq n.name iface)) [
      | inr e ↦ rw e (
          behind-reports n n networks (for_named body iface networks) w
            (sym (put_named-report n false e)) (rw e at h) (for_named-reports networks w fit))
      | inl e ↦
          let (r, (n', w')) = body (n, w) in
          rw e (
            this-reports n networks (for_named body iface networks) w r n' w' refl e (fits e)
              (rw e at h) (for_named-reports networks w' fit))
    ]

-- What a method that succeeds has done to what GetInterfaces reports
module _ {W F S : Type 0} (disk : Disk W F) (change : Exec F (Unit {0})) (ini : Ini F S)
    (texts : Texts) (iface : Bytes) (put : Interface → Interface) (Fits : F → Type 0)
    (step : (n : NetworkdNetwork F)
      → Fits n.config
      → (change n.config).0 ≡ ok tt
      → report ini texts (record n { config = (change n.config).1; sub_files = [] })
        ≡ put (report ini texts n)) where
  pub update_named-reports :
      (nd : Networkd F) (w : W)
      → All (λ n. bytes_eq n.name iface ≡ true → Fits n.config) nd.networks
      → (update_named disk change iface (nd, w)).0 ≡ ok tt
      → get_interfaces ini texts (update_named disk change iface (nd, w)).1.0
        ≡ map (λ i. if bytes_eq i.name iface then put i else i) (get_interfaces ini texts nd)
  unfolding update_named get_interfaces
  update_named-reports nd w fit h =
      for_named-reports disk nd.config_dir nd.backup_retention change ini texts iface put Fits step
        nd.networks w fit h
