-- ===== src/Networkd/Routes.antt =====
-- SetIfaceRoutes of networkd.go against GetInterfaces.
use go_network_configurator.Prelude.{
  ℕ, ◌≡◌, refl, ◌∙◌, ap, sym, Bool, false, not, List, [], ◌∷◌, ◌++◌, Option, none, some,
  if◌then◌else◌, Bytes, bytes_eq, eq_of_bytes_eq, map, All, select, Bool-cases, inl, inr,
  append_assoc, append-nil, All-intro,
}
use go_network_configurator.Prelude.Exec.{Result, ok, finish, ◌>>◌, >>=-eq-ok, pair}
use go_network_configurator.Net.{is_nil}
use go_network_configurator.Iface.{Interface, Route}
use go_network_configurator.NetTexts.{Texts}
use go_network_configurator.Networkd.{
  Key, Ini, NetworkdNetwork, Networkd, route, destination, gateway, metric,
}
use go_network_configurator.Networkd.Report.{report, get_interfaces, read_route}
use go_network_configurator.Networkd.Config.{
  Table, is_named, non_empty, added, contents, Changes, Changes-trans, IsAppended, IsIni,
  contents-Changes,
}
use go_network_configurator.Networkd.Parts.{
  Addressing, dhcp_part, route_part, addressing_part, no_addressing,
}
use go_network_configurator.Networkd.Assembled.{report-eq-parts}
use go_network_configurator.Networkd.Save.{Disk}
use go_network_configurator.Networkd.Update.{
  fill_route, add_routes, change_routes, set_iface_routes,
}
use go_network_configurator.Networkd.Named.{update_named-reports}

-- The texts of a route are read back as they were.
pub record IsReadable (texts : Texts) (key_int : Key → Option ℕ) (r : Route) : Type 0 where
  pub destination_lem : texts.parse_cidr (texts.net_string r.destination) ≡ ok r.destination
  pub gateway_lem : texts.parse_ip (texts.ip_string r.gateway) ≡ r.gateway
  pub gateway_present : is_nil r.gateway ≡ false
  pub metric_lem :
      (values : List Bytes)
      → key_int (record { value = texts.itoa r.metric; values = values }) ≡ some r.metric

-- The section of a route
route_table : Texts → Route → Table
route_table texts r = (
  route,
  added metric (texts.itoa r.metric) (
      added gateway (texts.ip_string r.gateway)
        (added destination (texts.net_string r.destination) (λ k. none))),
)

module _ {F S : Type 0} {ini : Ini F S} (laws : IsIni ini) (texts : Texts) where
  fill_route-Changes :
      (r : Route) (sec : S) (before : List S) (f : F)
      → ini.sections f ≡ before ++ sec ∷ []
      → Changes ini
          (λ keys. added metric (texts.itoa r.metric) (
            added gateway
              (texts.ip_string r.gateway)
              (added destination (texts.net_string r.destination) keys)))
          sec
          before
          []
          f
          (fill_route ini texts r sec f)
  unfolding bytes_eq
  fill_route-Changes r sec before f place =
      let c1 =
        laws.new_key_lem sec destination (texts.net_string r.destination) f before [] refl place in
      let f1 = (ini.new_key sec destination (texts.net_string r.destination) f).1 in
      let c2 =
        laws.new_key_lem sec gateway (texts.ip_string r.gateway) f1 before [] refl c1.in_place in
      let f2 = (ini.new_key sec gateway (texts.ip_string r.gateway) f1).1 in
      let c3 = laws.new_key_lem sec metric (texts.itoa r.metric) f2 before [] refl c2.in_place in
      Changes-trans (Changes-trans c1 c2) c3

  filled-contents :
      (r : Route) (sec : S) (f f1 : F)
      → IsAppended ini route sec f f1
      → contents ini (fill_route ini texts r sec f1) ≡ contents ini f ++ route_table texts r ∷ []
  unfolding route_table
  filled-contents r sec f f1 a =
      contents-Changes ini (fill_route-Changes r sec (ini.sections f) f1 a.at_end)
      ∙ rw a.others_kept (rw a.name_lem (rw a.empty refl))

  add_routes-contents :
      (routes : List Route) (f : F)
      → (add_routes ini texts routes f).0 ≡ ok tt
      → contents ini (add_routes ini texts routes f).1
        ≡ contents ini f ++ map (route_table texts) routes
  unfolding add_routes
  add_routes-contents [] f h = sym (append-nil (contents ini f))
  add_routes-contents (r ∷ routes) f h =
      let (sec, e, added_) =
        >>=-eq-ok (ini.new_section route)
          (λ s. finish (fill_route ini texts r s) >> add_routes ini texts routes) f
          (pair (add_routes ini texts (r ∷ routes)) f h) in
      let f1 = (ini.new_section route f).1 in
      let f2 = fill_route ini texts r sec f1 in
      let (u, done, last) =
        >>=-eq-ok (finish (fill_route ini texts r sec)) (λ v. add_routes ini texts routes) f1
          added_ in
      ap (λ (x : Result (Unit {0}) × F). contents ini x.1) (sym last)
      ∙ add_routes-contents routes f2 (ap (λ (x : Result (Unit {0}) × F). x.0) last)
      ∙ ap (λ ts. ts ++ map (route_table texts) routes)
          (filled-contents r sec f f1 (laws.new_section_lem route f sec e))
      ∙ append_assoc (contents ini f) (route_table texts r ∷ []) (map (route_table texts) routes)

abbrev no_route : List Table → List Table
no_route ts = select (λ t. not (is_named route t)) ts

-- The sections that are no routes give no routes, and all the rest.
no_route-dhcp : (ts : List Table) (d : Bool × Bool) → dhcp_part (no_route ts) d ≡ dhcp_part ts d
unfolding dhcp_part bytes_eq
no_route-dhcp [] d = refl
no_route-dhcp ((name, keys) ∷ ts) d = elim (Bool-cases (bytes_eq name route)) [
  | inl e ↦ rw (eq_of_bytes_eq name route e) (no_route-dhcp ts d)
  | inr e ↦ rw e (no_route-dhcp ts _)
]

module _ (texts : Texts) where
  no_route-addressing :
      (ts : List Table) (a : Addressing)
      → addressing_part texts (no_route ts) a ≡ addressing_part texts ts a
  unfolding addressing_part bytes_eq
  no_route-addressing [] a = refl
  no_route-addressing ((name, keys) ∷ ts) a = elim (Bool-cases (bytes_eq name route)) [
    | inl e ↦ rw (eq_of_bytes_eq name route e) (no_route-addressing ts a)
    | inr e ↦ rw e (no_route-addressing ts _)
  ]

  no_route-routes :
      (key_int : Key → Option ℕ) (ts : List Table) (routes : List Route)
      → route_part texts key_int (no_route ts) routes ≡ routes
  unfolding route_part
  no_route-routes key_int [] routes = refl
  no_route-routes key_int ((name, keys) ∷ ts) routes = elim (Bool-cases (bytes_eq name route)) [
    | inl e ↦ rw e (no_route-routes key_int ts routes)
    | inr e ↦ rw e (rw e (no_route-routes key_int ts routes))
  ]

  -- The new sections give the new routes, and nothing else.
  routes-dhcp :
      (ts : List Table) (routes : List Route) (d : Bool × Bool)
      → dhcp_part (ts ++ map (route_table texts) routes) d ≡ dhcp_part ts d
  unfolding dhcp_part route_table bytes_eq
  routes-dhcp [] [] d = refl
  routes-dhcp [] (r ∷ routes) d = routes-dhcp [] routes d
  routes-dhcp ((name, keys) ∷ ts) routes d = routes-dhcp ts routes _

  routes-addressing :
      (ts : List Table) (routes : List Route) (a : Addressing)
      → addressing_part texts (ts ++ map (route_table texts) routes) a ≡ addressing_part texts ts a
  unfolding addressing_part route_table bytes_eq
  routes-addressing [] [] a = refl
  routes-addressing [] (r ∷ routes) a = routes-addressing [] routes a
  routes-addressing ((name, keys) ∷ ts) routes a = routes-addressing ts routes _

  module _ (key_int : Key → Option ℕ) where
    read_route-table :
        (r : Route) (routes : List Route)
        → IsReadable texts key_int r
        → read_route texts key_int (route_table texts r).1 routes ≡ routes ++ r ∷ []
    unfolding read_route route_table bytes_eq
    read_route-table r routes readable = rw readable.destination_lem (
        rw readable.gateway_lem (
          rw readable.gateway_present
            (rw (readable.metric_lem (non_empty (texts.itoa r.metric))) refl)))

    routes-routes :
        (ts : List Table) (routes acc : List Route)
        → All (IsReadable texts key_int) routes
        → route_part texts key_int (ts ++ map (route_table texts) routes) acc
          ≡ route_part texts key_int ts acc ++ routes
    unfolding route_part route_table bytes_eq
    routes-routes [] [] acc h = sym (append-nil acc)
    routes-routes [] (r ∷ routes) acc (h, hs) =
        ap (route_part texts key_int (map (route_table texts) routes)) (read_route-table r acc h)
        ∙ routes-routes [] routes (acc ++ r ∷ []) hs
        ∙ append_assoc acc (r ∷ []) routes
    routes-routes ((name, keys) ∷ ts) routes acc h = routes-routes ts routes _ h

abbrev pub put_routes : List Route → Interface → Interface
put_routes routes i = record i { routes = routes }

module _ {F S : Type 0} {ini : Ini F S} (laws : IsIni ini) (texts : Texts) (routes : List Route)
    (readable : All (IsReadable texts ini.key_int) routes) where
  change_routes-contents :
      (f : F)
      → (change_routes ini texts routes f).0 ≡ ok tt
      → contents ini (change_routes ini texts routes f).1
        ≡ no_route (contents ini f) ++ map (route_table texts) routes
  unfolding change_routes
  change_routes-contents f h =
      add_routes-contents laws texts routes (ini.delete_section route f) h
      ∙ ap (λ ts. ts ++ map (route_table texts) routes) (laws.delete_section_lem route f)

  change_routes-report :
      (n : NetworkdNetwork F)
      → Unit {0}
      → (change_routes ini texts routes n.config).0 ≡ ok tt
      → report ini texts
          (record n { config = (change_routes ini texts routes n.config).1; sub_files = [] })
        ≡ put_routes routes (report ini texts n)
  change_routes-report n u h =
      let ts = contents ini n.config in
      let f' = (change_routes ini texts routes n.config).1 in
      report-eq-parts ini texts (record n { config = f'; sub_files = [] })
      ∙ rw (change_routes-contents n.config h) (
          rw (routes-dhcp texts (no_route ts) routes (false, false)) (
            rw (routes-addressing texts (no_route ts) routes no_addressing) (
              rw (routes-routes texts ini.key_int (no_route ts) routes [] readable) (
                rw (no_route-dhcp ts (false, false)) (
                  rw (no_route-addressing texts ts no_addressing)
                    (rw (no_route-routes texts ini.key_int ts []) refl))))))
      ∙ ap (put_routes routes) (sym (report-eq-parts ini texts n))

-- Where SetIfaceRoutes succeeds, GetInterfaces reports of every network of the name the routes
-- that were given, in their order and no other, and all else, of it and of the other networks, as
-- before, if the texts of the routes can be read back.
pub set_iface_routes-get_interfaces :
    {W F S : Type 0} {ini : Ini F S} (laws : IsIni ini) (texts : Texts) (disk : Disk W F)
    (iface : Bytes) (routes : List Route) (nd : Networkd F) (w : W)
    → All (IsReadable texts ini.key_int) routes
    → (set_iface_routes ini texts disk iface routes (nd, w)).0 ≡ ok tt
    → get_interfaces ini texts (set_iface_routes ini texts disk iface routes (nd, w)).1.0
      ≡ map
          (λ i. if bytes_eq i.name iface then put_routes routes i else i)
          (get_interfaces ini texts nd)
unfolding set_iface_routes
set_iface_routes-get_interfaces {ini} laws texts disk iface routes nd w readable h =
    update_named-reports disk (change_routes ini texts routes) ini texts iface (put_routes routes)
      (λ f. Unit {0}) (change_routes-report laws texts routes readable) nd w
      (All-intro _ (λ n e. tt) nd.networks) h
