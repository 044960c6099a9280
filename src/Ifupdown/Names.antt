-- ===== src/Ifupdown/Names.antt =====
-- The names of the interfaces of ifupdown.go, through the operations on the list.
use go_network_configurator.Prelude.{
  ◌≡◌, refl, ◌∙◌, ap, Bool, true, false, List, [], ◌∷◌, map, All, Bool-cases, inl, inr,
  if◌then◌else◌, Bytes, bytes_eq, codes,
}
use go_network_configurator.Ifupdown.{IfInterface, ensured}
use go_network_configurator.Ifupdown.Read.{on_named, note_methods, note_stanza}

abbrev pub names : List IfInterface → List Bytes
names interfaces = map (λ i. i.name) interfaces

-- No name is there twice.
abbrev pub AreDistinct : List Bytes → Type 0
AreDistinct [] = Unit {0}
AreDistinct (n ∷ ns) = All (λ m. bytes_eq n m ≡ false) ns × AreDistinct ns

abbrev pub Keeps : (IfInterface → IfInterface) → Type 0
Keeps f = (i : IfInterface) → (f i).name ≡ i.name

pub on_named-names :
    (name : Bytes) (f : IfInterface → IfInterface)
    → Keeps f
    → (interfaces : List IfInterface) → names (on_named name f interfaces) ≡ names interfaces
unfolding on_named
on_named-names name f k [] = refl
on_named-names name f k (i ∷ interfaces) = elim (Bool-cases (bytes_eq i.name name)) [
  | inl e ↦ rw e (ap (λ n. n ∷ names interfaces) (k i))
  | inr e ↦ rw e (ap (λ ns. i.name ∷ ns) (on_named-names name f k interfaces))
]

ensured-All :
    (P : Bytes → Type 0) (base name : Bytes) (interfaces : List IfInterface)
    → P name
    → All P (names interfaces)
    → All P (names (ensured base interfaces name))
unfolding ensured
ensured-All P base name [] h k = (h, tt)
ensured-All P base name (i ∷ interfaces) h (k, ks) = elim (Bool-cases (bytes_eq i.name name)) [
  | inl e ↦ rw e (k, ks)
  | inr e ↦ rw e (k, ensured-All P base name interfaces h ks)
]

pub ensured-AreDistinct :
    (base name : Bytes) (interfaces : List IfInterface)
    → AreDistinct (names interfaces)
    → AreDistinct (names (ensured base interfaces name))
unfolding ensured
ensured-AreDistinct base name [] h = (tt, tt)
ensured-AreDistinct base name (i ∷ interfaces) (h, hs) = elim (Bool-cases (bytes_eq i.name name)) [
  | inl e ↦ rw e (h, hs)
  | inr e ↦ rw e (
    ensured-All (λ m. bytes_eq i.name m ≡ false) base name interfaces e h,
    ensured-AreDistinct base name interfaces hs,
  )
]

both-names :
    (d q : Bool) (i : IfInterface)
    → (if d then record i { is_dhcp = true } else if q then record i { is_ppp = true } else i).name
      ≡ i.name
both-names true q i = refl
both-names false true i = refl
both-names false false i = refl

note_methods-Keeps : (mode : List Bytes) → Keeps (note_methods mode)
unfolding note_methods
note_methods-Keeps [] i = refl
note_methods-Keeps (f ∷ fs) i =
    note_methods-Keeps fs _ ∙ both-names (bytes_eq f (codes "dhcp")) (bytes_eq f (codes "ppp")) i

pub note_stanza-Keeps : (file : Bytes) (mode : List Bytes) → Keeps (note_stanza file mode)
unfolding note_stanza
note_stanza-Keeps file mode i = note_methods-Keeps mode _
