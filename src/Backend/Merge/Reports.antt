-- ===== src/Backend/Merge/Reports.antt =====
-- What mergeBackendState makes of one interface.
use go_network_configurator.Prelude.{
  ◌≡◌, refl, ◌∙◌, ap, Bool, ◌||◌, List, [], ◌∷◌, ◌++◌, bytes_eq, any, map, arith, bytes_eq_refl,
}
use go_network_configurator.Net.{is_nil, ip_equal}
use go_network_configurator.Net.Laws.{ip_equal_refl, ip_equal_sym, bytes_eq_sym}
use go_network_configurator.Iface.{Interface}
use go_network_configurator.Backend.{IfaceBackend, merge_backend_state, merge_interface}
use go_network_configurator.Backend.Merge.{
  merge_all, HasUniqueNames, reports_for, all_reported, merge_backend_state-eq-map,
}
use go_network_configurator.Backend.Merge.Absorb.{
  Absorbs, absorb, absorb-append, absorb-Absorbs, merge_dns-eq-absorb,
  merge_search_domains-eq-absorb, is_empty,
}

-- The lists that the reports hold, joined.
pub gather : {A : Type 0} → (Interface → List A) → List Interface → List A
gather f [] = []
gather f (b ∷ bs) = f b ++ gather f bs

-- What merging the reports of the backends makes of an interface: the DHCP client of a family is
-- on if it was, or if any report says so; the DNS servers and search domains of the reports are
-- taken in; and everything else is as it was.
pub record IsMergeOf (i : Interface) (bs : List Interface) (r : Interface) : Type 0 where
  pub dhcp4 : r.dhcp4 ≡ i.dhcp4 || any (λ b. b.dhcp4) bs
  pub dhcp6 : r.dhcp6 ≡ i.dhcp6 || any (λ b. b.dhcp6) bs
  pub servers : Absorbs ip_equal is_nil i.dns (gather (λ b. b.dns) bs) r.dns
  pub domains :
      Absorbs bytes_eq is_empty i.search_domains
        (gather (λ b. b.search_domains) bs)
        r.search_domains
  pub rest : r ≡ record i {
    dhcp4 = r.dhcp4;
    dhcp6 = r.dhcp6;
    dns = r.dns;
    search_domains = r.search_domains;
  }

module _ {A : Type 0} (field : Interface → List A) (same : A → A → Bool) (empty : A → Bool)
    (step : (i b : Interface)
      → field (merge_interface i b) ≡ absorb same empty (field i) (field b)) where
  field-merge_all :
      (i : Interface) (bs : List Interface)
      → field (merge_all i bs) ≡ absorb same empty (field i) (gather field bs)
  unfolding merge_all gather absorb
  field-merge_all i [] = refl
  field-merge_all i (b ∷ bs) =
      field-merge_all (merge_interface i b) bs
      ∙ ap (λ t. absorb same empty t (gather field bs)) (step i b)
      ∙ absorb-append same empty (field i) (field b) (gather field bs)

module _ (i : Interface) (bs : List Interface) where
  dns-merge_all : (merge_all i bs).dns ≡ absorb ip_equal is_nil i.dns (gather (λ b. b.dns) bs)
  unfolding merge_interface
  dns-merge_all =
      field-merge_all (λ b. b.dns) ip_equal is_nil (λ i b. merge_dns-eq-absorb i.dns b.dns) i bs

  search_domains-merge_all :
      (merge_all i bs).search_domains
      ≡ absorb bytes_eq is_empty i.search_domains (gather (λ b. b.search_domains) bs)
  unfolding merge_interface
  search_domains-merge_all =
      field-merge_all (λ b. b.search_domains) bytes_eq is_empty
        (λ i b. merge_search_domains-eq-absorb i.search_domains b.search_domains) i bs

dhcp4-merge_all :
    (i : Interface) (bs : List Interface)
    → (merge_all i bs).dhcp4 ≡ i.dhcp4 || any (λ b. b.dhcp4) bs
unfolding merge_all merge_interface
dhcp4-merge_all i [] = ground arith
dhcp4-merge_all i (b ∷ bs) = ground (arith, dhcp4-merge_all (merge_interface i b) bs)

dhcp6-merge_all :
    (i : Interface) (bs : List Interface)
    → (merge_all i bs).dhcp6 ≡ i.dhcp6 || any (λ b. b.dhcp6) bs
unfolding merge_all merge_interface
dhcp6-merge_all i [] = ground arith
dhcp6-merge_all i (b ∷ bs) = ground (arith, dhcp6-merge_all (merge_interface i b) bs)

-- The fields that no report changes.
abbrev with_merged : Interface → Interface → Interface
with_merged i r = record i {
  dhcp4 = r.dhcp4;
  dhcp6 = r.dhcp6;
  dns = r.dns;
  search_domains = r.search_domains;
}

rest-merge_all :
    (i : Interface) (bs : List Interface) → merge_all i bs ≡ with_merged i (merge_all i bs)
unfolding merge_all merge_interface
rest-merge_all i [] = refl
rest-merge_all i (b ∷ bs) = rest-merge_all (merge_interface i b) bs

merge_all-IsMergeOf : (i : Interface) (bs : List Interface) → IsMergeOf i bs (merge_all i bs)
merge_all-IsMergeOf i bs = record {
  dhcp4 = dhcp4-merge_all i bs;
  dhcp6 = dhcp6-merge_all i bs;
  servers =
      rw dns-merge_all
        (absorb-Absorbs ip_equal is_nil ip_equal_refl ip_equal_sym i.dns (gather (λ b. b.dns) bs));
  domains = rw search_domains-merge_all (
      absorb-Absorbs bytes_eq is_empty bytes_eq_refl bytes_eq_sym i.search_domains
        (gather (λ b. b.search_domains) bs));
  rest = rest-merge_all i bs;
}

-- Each interface of one list and the interface at the same place of the other.
abbrev pub Pointwise : (Interface → Interface → Type 0) → List Interface → List Interface → Type 0
Pointwise R [] [] = Unit
Pointwise R [] (r ∷ rs) = ⊥
Pointwise R (i ∷ is) [] = ⊥
Pointwise R (i ∷ is) (r ∷ rs) = R i r × Pointwise R is rs

Pointwise-map :
    (R : Interface → Interface → Type 0) (f : Interface → Interface)
    → ((i : Interface) → R i (f i))
    → (ifaces : List Interface) → Pointwise R ifaces (map f ifaces)
Pointwise-map R f h [] = tt
Pointwise-map R f h (i ∷ ifaces) = (h i, Pointwise-map R f h ifaces)

-- Where no two interfaces share a name, mergeBackendState keeps the list of interfaces in order
-- and makes of each what the reports of all readable backends under its name make of it: their
-- DHCP clients are turned on; their DNS servers and search domains that are not nil or empty are
-- taken in, once each, behind those that were there, and no others; and everything else stays.
pub merge_backend_state-IsMergeOf :
    {W : Type 0} (backends : List (IfaceBackend W)) (w : W) (ifaces : List Interface)
    → HasUniqueNames ifaces
    → Pointwise
        (λ i r. IsMergeOf i (reports_for i (all_reported backends w)) r)
        ifaces
        (merge_backend_state backends w ifaces)
merge_backend_state-IsMergeOf backends w ifaces u =
    rw (merge_backend_state-eq-map backends w ifaces u) (
      Pointwise-map (λ i r. IsMergeOf i (reports_for i (all_reported backends w)) r)
        (λ i. merge_all i (reports_for i (all_reported backends w)))
        (λ i. merge_all-IsMergeOf i (reports_for i (all_reported backends w))) ifaces)
