-- ===== src/Backend/Merge.antt =====
-- mergeBackendState gives each interface what the backends report under its name.
pub mod Absorb
pub mod Reports
use mathlib.Core.List.{map-id}
use go_network_configurator.Prelude.{
  ℕ, ◌≡◌, refl, sym, ◌∙◌, ap, Bool, true, false, not, ◌&&◌, ◌||◌, List, [], ◌∷◌, ◌++◌, Option, none,
  some, if◌then◌else◌, Bytes, bytes_eq, any, map, All, arith, select, Bool-cases, inl, inr,
  eq_of_bytes_eq, bytes_eq_refl, select-append, append_assoc,
}
use go_network_configurator.Net.{Ip}
use go_network_configurator.Iface.{Interface}
use go_network_configurator.Backend.{
  IfaceBackend, merge_interface, merge_interfaces, merge_backend_state, update_by_name, is_named,
  reported,
}

-- No two interfaces have one name, as in the kernel.
abbrev pub HasUniqueNames : List Interface → Type 0
HasUniqueNames [] = Unit
HasUniqueNames (i ∷ ifaces) =
    All (λ j. bytes_eq j.name i.name ≡ false) ifaces × HasUniqueNames ifaces

-- What several reports in a row add to an interface.
unfoldable pub merge_all : Interface → List Interface → Interface
merge_all target [] = target
merge_all target (bi ∷ reports) = merge_all (merge_interface target bi) reports

-- The reports of all backends, in order.
unfoldable pub all_reported : {W : Type 0} → List (IfaceBackend W) → W → List Interface
all_reported [] w = []
all_reported (b ∷ backends) w = reported w b ++ all_reported backends w

abbrev change_named : Bytes → (Interface → Interface) → Interface → Interface
change_named name f i = if is_named name i then f i else i

not_any_named :
    (name own : Bytes) (ifaces : List Interface)
    → bytes_eq own name ≡ true
    → All (λ j. bytes_eq j.name own ≡ false) ifaces
    → any (is_named name) ifaces ≡ false
not_any_named name own [] e h = refl
not_any_named name own (j ∷ ifaces) e h =
    ground (arith, not_any_named name own ifaces, eq_of_bytes_eq own name e)

map-change_named :
    (name : Bytes) (f : Interface → Interface) (ifaces : List Interface)
    → any (is_named name) ifaces ≡ false
    → map (change_named name f) ifaces ≡ ifaces
map-change_named name f [] h = refl
map-change_named name f (i ∷ ifaces) h = ground (arith, map-change_named name f ifaces)

update_by_name-eq-map :
    (name : Bytes) (f : Interface → Interface) (ifaces : List Interface)
    → HasUniqueNames ifaces
    → update_by_name name f ifaces ≡ map (change_named name f) ifaces
unfolding update_by_name
update_by_name-eq-map name f [] u = refl
update_by_name-eq-map name f (i ∷ ifaces) u = ground (
  arith,
  update_by_name-eq-map name f ifaces,
  map-change_named name f ifaces,
  not_any_named name i.name ifaces,
)

module _ (f : Interface → Interface) (keeps : (i : Interface) → (f i).name ≡ i.name) where
  All-names-map :
      (own : Bytes) (ifaces : List Interface)
      → All (λ j. bytes_eq j.name own ≡ false) ifaces
      → All (λ j. bytes_eq j.name own ≡ false) (map f ifaces)
  All-names-map own [] h = tt
  All-names-map own (j ∷ ifaces) h = (rw keeps h.0, All-names-map own ifaces h.1)

  map-HasUniqueNames :
      (ifaces : List Interface) → HasUniqueNames ifaces → HasUniqueNames (map f ifaces)
  map-HasUniqueNames [] u = tt
  map-HasUniqueNames (i ∷ ifaces) u =
      (rw keeps (All-names-map i.name ifaces u.0), map-HasUniqueNames ifaces u.1)

-- The reports under the name of an interface, in order.
abbrev pub reports_for : Interface → List Interface → List Interface
reports_for i = select (λ b. is_named b.name i)

name-merge_all : (i : Interface) (bs : List Interface) → (merge_all i bs).name ≡ i.name
unfolding merge_all merge_interface
name-merge_all i [] = refl
name-merge_all i (b ∷ bs) = name-merge_all (merge_interface i b) bs

merge_all-append :
    (i : Interface) (xs ys : List Interface)
    → merge_all (merge_all i xs) ys ≡ merge_all i (xs ++ ys)
unfolding merge_all
merge_all-append i [] ys = refl
merge_all-append i (x ∷ xs) ys = merge_all-append (merge_interface i x) xs ys

-- Two maps in a row, where the second goes by a name that the first keeps.
map_in_turn :
    (f g h : Interface → Interface) (ifaces : List Interface)
    → ((i : Interface) → g (f i) ≡ h i)
    → map g (map f ifaces) ≡ map h ifaces
map_in_turn f g h [] e = refl
map_in_turn f g h (i ∷ ifaces) e = cc (e i, map_in_turn f g h ifaces e)

name-change_named :
    (b i : Interface) → (change_named b.name (λ t. merge_interface t b) i).name ≡ i.name
unfolding merge_interface
name-change_named b i = ground arith

merge_all-change_named :
    (b : Interface) (bs : List Interface) (i : Interface)
    → merge_all
        (change_named b.name (λ t. merge_interface t b) i)
        (reports_for (change_named b.name (λ t. merge_interface t b) i) bs)
      ≡ merge_all i (reports_for i (b ∷ bs))
unfolding merge_all
merge_all-change_named b bs i = rw name-change_named (ground arith)

merge_interfaces-eq-map :
    (bs ifaces : List Interface)
    → HasUniqueNames ifaces
    → merge_interfaces ifaces bs ≡ map (λ i. merge_all i (reports_for i bs)) ifaces
unfolding merge_interfaces merge_all
merge_interfaces-eq-map [] ifaces u = sym (map-id ifaces)
merge_interfaces-eq-map (b ∷ bs) ifaces u =
    let f = λ (i : Interface). change_named b.name (λ t. merge_interface t b) i in
    rw (update_by_name-eq-map b.name (λ t. merge_interface t b) ifaces u) (
      merge_interfaces-eq-map bs (map f ifaces)
        (map-HasUniqueNames f (name-change_named b) ifaces u)
      ∙ map_in_turn f (λ i. merge_all i (reports_for i bs))
          (λ i. merge_all i (reports_for i (b ∷ bs))) ifaces (merge_all-change_named b bs))

merge_all-reports_for :
    (xs ys : List Interface) (i : Interface)
    → merge_all (merge_all i (reports_for i xs)) (reports_for (merge_all i (reports_for i xs)) ys)
      ≡ merge_all i (reports_for i (xs ++ ys))
merge_all-reports_for xs ys i = simp (name-merge_all, merge_all-append, select-append)

pub merge_backend_state-eq-map :
    {W : Type 0} (backends : List (IfaceBackend W)) (w : W) (ifaces : List Interface)
    → HasUniqueNames ifaces
    → merge_backend_state backends w ifaces
      ≡ map (λ i. merge_all i (reports_for i (all_reported backends w))) ifaces
unfolding merge_backend_state all_reported merge_all
merge_backend_state-eq-map [] w ifaces u = sym (map-id ifaces)
merge_backend_state-eq-map (b ∷ backends) w ifaces u =
    let xs = reported w b in
    let ys = all_reported backends w in
    let f = λ (i : Interface). merge_all i (reports_for i xs) in
    rw (merge_interfaces-eq-map xs ifaces u) (
      merge_backend_state-eq-map backends w (map f ifaces)
        (map-HasUniqueNames f (λ i. name-merge_all i (reports_for i xs)) ifaces u)
      ∙ map_in_turn f (λ i. merge_all i (reports_for i ys))
          (λ i. merge_all i (reports_for i (xs ++ ys))) ifaces (merge_all-reports_for xs ys))
