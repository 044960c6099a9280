-- ===== src/Networkd/Config.antt =====
-- What networkd.go relies on in the package ini: the sections of a file in order, each with its
-- keys, and how the calls change them.
use go_network_configurator.Prelude.{
  ◌≡◌, refl, ◌∙◌, ap, Bool, true, false, not, List, [], ◌∷◌, ◌++◌, Option, none, some, arith,
  if◌then◌else◌, Bytes, bytes_eq, length, select, any, map, select-append, length-append, drop,
}
use go_network_configurator.Prelude.Exec.{ok}
use go_network_configurator.Networkd.{Key, Ini}
use go_network_configurator.Networkd.Report.{Keys}

-- A section: its name and its keys
abbrev pub Table : Type 0
Table = Bytes × Keys

abbrev pub is_named : Bytes → Table → Bool
is_named name t = bytes_eq t.0 name

abbrev pub without : Bytes → Keys → Keys
without k keys j = if bytes_eq j k then none else keys j

-- The values of a key but the empty ones, which the package leaves out
abbrev pub non_empty : Bytes → List Bytes
non_empty [] = []
non_empty (c ∷ v) = (c ∷ v) ∷ []

abbrev pub old_values : Option Key → List Bytes
old_values none = []
old_values (some key) = key.values

-- The first value is replaced, and the further ones stay.
abbrev pub assigned : Bytes → Bytes → Keys → Keys
assigned k v keys j =
    if bytes_eq j k
    then some (record { value = v; values = non_empty v ++ drop 1 (old_values (keys j)) })
    else keys j

abbrev pub with_value : Bytes → Option Key → Key
with_value v none = record { value = v; values = non_empty v }
with_value v (some key) = record { value = key.value; values = key.values ++ non_empty v }

-- The key gets one more value.
abbrev pub added : Bytes → Bytes → Keys → Keys
added k v keys j = if bytes_eq j k then some (with_value v (keys j)) else keys j

module _ {F S : Type 0} (ini : Ini F S) where
  abbrev pub keys_of : F → S → Keys
  keys_of f sec k = ini.get_key sec k f

  abbrev pub table : F → S → Table
  table f sec = (ini.section_name sec, keys_of f sec)

  abbrev pub contents : F → List Table
  contents f = map (table f) (ini.sections f)

  -- The section between `before` and `after` has its keys changed by `g`, and nothing else is.
  pub record Changes (g : Keys → Keys) (sec : S) (before after : List S) (f f' : F) : Type 0 where
    pub in_place : ini.sections f' ≡ before ++ sec ∷ after
    pub keys_changed : keys_of f' sec ≡ g (keys_of f sec)
    pub before_kept : map (table f') before ≡ map (table f) before
    pub after_kept : map (table f') after ≡ map (table f) after

  -- The first section of a name, between the others
  pub record Located (name : Bytes) (sec : S) (f : F) : Type 0 where
    pub name_lem : ini.section_name sec ≡ name
    pub before : List S
    pub after : List S
    pub place : ini.sections f ≡ before ++ sec ∷ after

  -- A new section stands behind the others and has no keys.
  pub record IsAppended (name : Bytes) (sec : S) (f f' : F) : Type 0 where
    pub name_lem : ini.section_name sec ≡ name
    pub at_end : ini.sections f' ≡ ini.sections f ++ sec ∷ []
    pub empty : keys_of f' sec ≡ λ k. none
    pub others_kept : map (table f') (ini.sections f) ≡ contents f

  pub record IsIni : Type 0 where
    pub get_section_lem :
        (name : Bytes) (f : F) (sec : S) → ini.get_section name f ≡ ok sec → Located name sec f
    pub delete_key_lem :
        (sec : S) (k : Bytes) (f : F) (before after : List S)
        → ini.sections f ≡ before ++ sec ∷ after
        → Changes (without k) sec before after f (ini.delete_key sec k f)
    pub set_value_lem :
        (sec : S) (k v : Bytes) (f : F) (before after : List S)
        → ini.sections f ≡ before ++ sec ∷ after
        → Changes (assigned k v) sec before after f (ini.set_value sec k v f)
    pub new_key_lem :
        (sec : S) (k v : Bytes) (f : F) (before after : List S)
        → bytes_eq k [] ≡ false
        → ini.sections f ≡ before ++ sec ∷ after
        → Changes (added k v) sec before after f (ini.new_key sec k v f).1
    pub delete_section_lem :
        (name : Bytes) (f : F)
        → contents (ini.delete_section name f) ≡ select (λ t. not (is_named name t)) (contents f)
    pub new_section_lem :
        (name : Bytes) (f : F) (sec : S)
        → (ini.new_section name f).0 ≡ ok sec
        → IsAppended name sec f (ini.new_section name f).1

module _ {F S : Type 0} {ini : Ini F S} where
  pub Changes-trans :
      {g h : Keys → Keys} {sec : S} {before after : List S} {f f' f'' : F}
      → Changes ini g sec before after f f'
      → Changes ini h sec before after f' f''
      → Changes ini (λ keys. h (g keys)) sec before after f f''
  Changes-trans {h} c d = record {
    in_place = d.in_place;
    keys_changed = d.keys_changed ∙ ap h c.keys_changed;
    before_kept = d.before_kept ∙ c.before_kept;
    after_kept = d.after_kept ∙ c.after_kept;
  }

map-between {ℓ κ} :
    {A : Type ℓ} {B : Type κ} (f : A → B) (xs : List A) (y : A) (zs : List A)
    → map f (xs ++ y ∷ zs) ≡ map f xs ++ f y ∷ map f zs
map-between f [] y zs = refl
map-between f (x ∷ xs) y zs = ap (λ l. f x ∷ l) (map-between f xs y zs)

module _ {F S : Type 0} (ini : Ini F S) where
  pub contents-place :
      (f : F) (before : List S) (sec : S) (after : List S)
      → ini.sections f ≡ before ++ sec ∷ after
      → contents ini f ≡ map (table ini f) before ++ table ini f sec ∷ map (table ini f) after
  contents-place f before sec after e =
      ap (map (table ini f)) e ∙ map-between (table ini f) before sec after

  pub contents-Changes :
      {g : Keys → Keys} {sec : S} {before after : List S} {f f' : F}
      → Changes ini g sec before after f f'
      → contents ini f'
        ≡ map (table ini f) before
          ++ (ini.section_name sec, g (keys_of ini f sec)) ∷ map (table ini f) after
  contents-Changes {sec} {before} {after} {f} {f'} c =
      contents-place f' before sec after c.in_place
      ∙ ap (λ ts. ts ++ table ini f' sec ∷ map (table ini f') after) c.before_kept
      ∙ ap (λ ts. map (table ini f) before ++ table ini f' sec ∷ ts) c.after_kept
      ∙ ap
          (λ (keys : Keys).
            map (table ini f) before ++ (ini.section_name sec, keys) ∷ map (table ini f) after)
          c.keys_changed

-- Exactly one section has the name.
abbrev pub HasOne : Bytes → List Table → Type 0
HasOne name ts = length (select (is_named name) ts) ≡ 1

any-of-select {ℓ} :
    {A : Type ℓ} (p : A → Bool) (xs : List A) → length (select p xs) ≡ 0 → any p xs ≡ false
any-of-select p [] h = refl
any-of-select p (x ∷ xs) h = ground (arith, any-of-select p xs)

-- The other sections do not have the name.
pub HasOne-others :
    (name : Bytes) (pre : List Table) (t : Table) (post : List Table)
    → HasOne name (pre ++ t ∷ post)
    → is_named name t ≡ true
    → (any (is_named name) pre ≡ false) × (any (is_named name) post ≡ false)
HasOne-others name pre t post one e =
    let counted = ap length (select-append (is_named name) pre (t ∷ post)) in
    let summed = length-append (select (is_named name) pre) (select (is_named name) (t ∷ post)) in
    (
      any-of-select (is_named name) pre (ground (arith, one, counted, summed, e)),
      any-of-select (is_named name) post (ground (arith, one, counted, summed, e)),
    )
