-- ===== src/Ifupdown/Added.antt =====
-- EnsureInterface of ifupdown.go, as GetInterfaces reports what it leaves.
use go_network_configurator.Prelude.{
  ◌≡◌, refl, ap, false, List, [], ◌∷◌, ◌++◌, map, select, any, All, Bool-cases, inl, inr,
  if◌then◌else◌, Bytes, bytes_eq,
}
use go_network_configurator.Iface.{Interface}
use go_network_configurator.NetTexts.{Texts}
use go_network_configurator.InitState.{fields}
use go_network_configurator.Ifupdown.{IfInterface, IfUpDown, dhcp_state, ensured, ensure_interface}
use go_network_configurator.Ifupdown.Dhcp.{IsConsistent}
use go_network_configurator.Ifupdown.Report.{mac_of, report}

unfoldable pub last_or : {A : Type 0} → A → List A → A
last_or x [] = x
last_or x (y ∷ ys) = last_or y ys

-- An interface of which nothing is known but the name and the address of the last link of the name
abbrev pub only_named : List (Bytes × Bytes) → Bytes → Interface
only_named links name = record {
  name = name;
  mac = last_or [] (map (λ l. l.1) (select (λ l. bytes_eq l.0 name) links));
  addresses = [];
  gateway4 = [];
  gateway6 = [];
  routes = [];
  dns = [];
  up = false;
  physical = false;
  dhcp4 = false;
  dhcp6 = false;
  search_domains = [];
}

-- The interfaces, and behind them one of the name, if there is none among them
abbrev pub or_added : List (Bytes × Bytes) → Bytes → List Interface → List Interface
or_added links name interfaces =
    if any (λ i. bytes_eq i.name name) interfaces
    then interfaces
    else interfaces ++ only_named links name ∷ []

mac_of-eq-last_or :
    (name : Bytes) (links : List (Bytes × Bytes)) (mac : Bytes)
    → mac_of name links mac ≡ last_or mac (map (λ l. l.1) (select (λ l. bytes_eq l.0 name) links))
unfolding mac_of last_or
mac_of-eq-last_or name [] mac = refl
mac_of-eq-last_or name ((link_name, link_mac) ∷ links) mac =
    elim (Bool-cases (bytes_eq link_name name)) [
      | inl e ↦ rw e (mac_of-eq-last_or name links link_mac)
      | inr e ↦ rw e (mac_of-eq-last_or name links mac)
    ]

module _ (texts : Texts) (links : List (Bytes × Bytes)) (name base_config : Bytes) where
  report-ensured :
      (interfaces : List IfInterface)
      → map (report texts links) (ensured base_config interfaces name)
        ≡ or_added links name (map (report texts links) interfaces)
  unfolding ensured report dhcp_state fields
  report-ensured [] =
      ap (λ mac. record (only_named links name) { mac = mac } ∷ [])
        (mac_of-eq-last_or name links [])
  report-ensured (i ∷ interfaces) = elim (Bool-cases (bytes_eq i.name name)) [
    | inl e ↦ rw e refl
    | inr e ↦
        elim (Bool-cases (any (λ j. bytes_eq j.name name) (map (report texts links) interfaces))) [
          | inl there ↦
              rw (e, there)
                (ap (λ is_. report texts links i ∷ is_) (rw there at (report-ensured interfaces)))
          | inr missing ↦
              rw (e, missing)
                (ap (λ is_. report texts links i ∷ is_) (rw missing at (report-ensured interfaces)))
        ]
  ]

IsConsistent-ensured :
    (name base_config : Bytes) (interfaces : List IfInterface)
    → All IsConsistent interfaces
    → All IsConsistent (ensured base_config interfaces name)
unfolding ensured fields bytes_eq
IsConsistent-ensured name base_config [] c = (refl, tt)
IsConsistent-ensured name base_config (i ∷ interfaces) c =
    elim (Bool-cases (bytes_eq i.name name)) [
      | inl e ↦ rw e c
      | inr e ↦ rw e (c.0, IsConsistent-ensured name base_config interfaces c.1)
    ]

-- EnsureInterface adds an interface at the end if there is none of the name.
pub report-ensure_interface :
    (texts : Texts) (links : List (Bytes × Bytes)) (name : Bytes) (i : IfUpDown)
    → map (report texts links) (ensure_interface i name).interfaces
      ≡ or_added links name (map (report texts links) i.interfaces)
unfolding ensure_interface
report-ensure_interface texts links name i =
    report-ensured texts links name i.base_config i.interfaces

pub IsConsistent-ensure_interface :
    (i : IfUpDown) (name : Bytes)
    → All IsConsistent i.interfaces
    → All IsConsistent (ensure_interface i name).interfaces
unfolding ensure_interface
IsConsistent-ensure_interface i name c = IsConsistent-ensured name i.base_config i.interfaces c
