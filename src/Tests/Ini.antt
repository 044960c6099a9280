-- ===== src/Tests/Ini.antt =====
-- Files of sections as lists, on which the calls of the package ini act by position.
use go_network_configurator.Prelude.{
  ℕ, zero, suc, ◌+◌, ◌≡◌, refl, ◌∙◌, ap, sym, not, List, [], ◌∷◌, ◌++◌, Option, none, some, arith,
  if◌then◌else◌, Bytes, bytes_eq, eq_of_bytes_eq, length, select, map, length-append, append_assoc,
  append-nil, Bool-cases, inl, inr,
}
use go_network_configurator.Prelude.Exec.{Result, ok, err, external, ok-inj}
use go_network_configurator.Networkd.{Key, Ini}
use go_network_configurator.Networkd.Report.{Keys}
use go_network_configurator.Networkd.Config.{
  Table, is_named, without, assigned, added, table, contents, Changes, IsAppended, IsIni,
}

abbrev pub File : Type 0
File = List Table

-- A position and a name
abbrev pub Section : Type 0
Section = ℕ × Bytes

unfoldable pub number : ℕ → File → List Section
number i [] = []
number i ((name, keys) ∷ f) = (i, name) ∷ number (suc i) f

unfoldable pub keys_at : File → ℕ → Keys
keys_at [] i k = none
keys_at ((name, keys) ∷ f) zero k = keys k
keys_at ((name, keys) ∷ f) (suc i) k = keys_at f i k

unfoldable pub modify : (Keys → Keys) → ℕ → File → File
modify g i [] = []
modify g zero ((name, keys) ∷ f) = (name, g keys) ∷ f
modify g (suc i) (t ∷ f) = t ∷ modify g i f

unfoldable pub first_named : Bytes → ℕ → File → Result Section
first_named name i [] = err (external 0)
first_named name i ((n, keys) ∷ f) =
    let rest = first_named name (suc i) f in if bytes_eq n name then ok (i, n) else rest

-- A key that holds a numeral reads as one digit.
abbrev digit : Key → Option ℕ
digit key = elim key.value [ [] ↦ none | c ∷ s ↦ some c ]

abbrev pub list_ini : Ini File Section
list_ini = record {
  sections = number 0;
  section_name = λ s. s.1;
  get_section = λ name f. first_named name 0 f;
  new_section = λ name f. (ok (length f, name), f ++ (name, λ k. none) ∷ []);
  delete_section = λ name f. select (λ t. not (is_named name t)) f;
  get_key = λ s k f. keys_at f s.0 k;
  new_key = λ s k v f. (ok tt, modify (added k v) s.0 f);
  set_value = λ s k v f. modify (assigned k v) s.0 f;
  delete_key = λ s k f. modify (without k) s.0 f;
  key_int = digit;
}

-- The part of a file that the sections behind some others come from
record Split (i : ℕ) (f : File) (before : List Section) (sec : Section) (after : List Section)
    : Type 0 where
  pre : File
  here : Table
  post : File
  file_eq : f ≡ pre ++ here ∷ post
  before_eq : before ≡ number i pre
  sec_eq : sec ≡ (i + length pre, here.0)
  after_eq : after ≡ number (suc (i + length pre)) post

split :
    (i : ℕ) (f : File) (before : List Section) (sec : Section) (after : List Section)
    → number i f ≡ before ++ sec ∷ after
    → Split i f before sec after
unfolding number
split i [] [] sec after h = cc
split i [] (b ∷ before) sec after h = cc
split i ((name, keys) ∷ f) [] sec after h = record {
  pre = [];
  here = (name, keys);
  post = f;
  file_eq = refl;
  before_eq = refl;
  sec_eq = ground arith;
  after_eq = ground arith;
}
split i ((name, keys) ∷ f) (b ∷ before) sec after h =
    let s = split (suc i) f before sec after (cc) in
    record {
      pre = (name, keys) ∷ s.pre;
      here = s.here;
      post = s.post;
      file_eq = ap (λ l. (name, keys) ∷ l) s.file_eq;
      before_eq = cc (s.before_eq, h);
      sec_eq = s.sec_eq ∙ ap (λ (k : ℕ). (k, s.here.0)) (omega arith);
      after_eq = s.after_eq ∙ ap (λ (k : ℕ). number k s.post) (omega arith);
    }

-- Sections by their position
keys_at-behind : (q r : File) (i : ℕ) → keys_at (q ++ r) (length q + i) ≡ keys_at r i
unfolding keys_at
keys_at-behind [] r i = ap (keys_at r) (omega arith)
keys_at-behind ((name, keys) ∷ q) r i =
    let e : suc (length q) + i ≡ suc (length q + i) = omega arith in
    ap (keys_at ((name, keys) ∷ (q ++ r))) e ∙ keys_at-behind q r i

modify-behind :
    (g : Keys → Keys) (q : File) (t : Table) (r : File)
    → modify g (length q) (q ++ t ∷ r) ≡ q ++ (t.0, g t.1) ∷ r
unfolding modify
modify-behind g [] t r = refl
modify-behind g (u ∷ q) t r = ap (λ l. u ∷ l) (modify-behind g q t r)

-- What stands between other sections reads as it is.
tables_between : (q m r : File) → map (table list_ini (q ++ (m ++ r))) (number (length q) m) ≡ m
unfolding number keys_at
tables_between q [] r = refl
tables_between q ((name, keys) ∷ m) r =
    let e : length q ≡ length q + 0 = omega arith in
    let e' : length q + 1 ≡ suc (length q) = omega arith in
    let here =
      ap (keys_at (q ++ (name, keys) ∷ (m ++ r))) e
      ∙ keys_at-behind q ((name, keys) ∷ (m ++ r)) 0 in
    let there =
      ap (λ f. map (table list_ini f) (number (suc (length q)) m))
        (sym (append_assoc q ((name, keys) ∷ []) (m ++ r)))
      ∙ ap (λ (k : ℕ). map (table list_ini ((q ++ (name, keys) ∷ []) ++ (m ++ r))) (number k m))
          (sym (length-append q ((name, keys) ∷ []) ∙ e'))
      ∙ tables_between (q ++ (name, keys) ∷ []) m r in
    ap
      (λ (ks : Keys).
        (name, ks)
        ∷ map (table list_ini (q ++ (name, keys) ∷ (m ++ r))) (number (suc (length q)) m))
      here
    ∙ ap (λ l. (name, keys) ∷ l) there

number-append : (i : ℕ) (q r : File) → number i (q ++ r) ≡ number i q ++ number (i + length q) r
unfolding number
number-append i [] r = ap (λ (k : ℕ). number k r) (omega arith)
number-append i ((name, keys) ∷ q) r =
    ap (λ l. (i, name) ∷ l)
      (number-append (suc i) q r ∙ ap (λ (k : ℕ). number (suc i) q ++ number k r) (omega arith))

contents-list : (f : File) → contents list_ini f ≡ f
contents-list f =
    ap (λ l. map (table list_ini l) (number 0 f)) (sym (append-nil f)) ∙ tables_between [] f []

-- A section's keys changed in place
module _ (g : Keys → Keys) (pre : File) (t : Table) (post : File) where
  abbrev old : File
  old = pre ++ t ∷ post

  abbrev new : File
  new = pre ++ (t.0, g t.1) ∷ post

  abbrev here : Section
  here = (length pre, t.0)

  numbered :
      (u : Table)
      → u.0 ≡ t.0
      → number 0 (pre ++ u ∷ post) ≡ number 0 pre ++ here ∷ number (suc (length pre)) post
  unfolding number
  numbered u e =
      let z : 0 + length pre ≡ length pre = omega arith in
      number-append 0 pre (u ∷ post)
      ∙ ap (λ (k : ℕ). number 0 pre ++ (k, u.0) ∷ number (suc k) post) z
      ∙ ap (λ (n : Bytes). number 0 pre ++ (length pre, n) ∷ number (suc (length pre)) post) e

  keys_here : (u : Table) → (λ k. keys_at (pre ++ u ∷ post) (length pre) k) ≡ u.1
  unfolding keys_at
  keys_here u =
      let z : length pre ≡ length pre + 0 = omega arith in
      ap (keys_at (pre ++ u ∷ post)) z ∙ keys_at-behind pre (u ∷ post) 0

  tables_last :
      (u : Table) → map (table list_ini (pre ++ u ∷ post)) (number (suc (length pre)) post) ≡ post
  tables_last u =
      let z : length pre + 1 ≡ suc (length pre) = omega arith in
      ap (λ f. map (table list_ini f) (number (suc (length pre)) post))
        (ap (λ l. pre ++ u ∷ l) (sym (append-nil post))
          ∙ sym (append_assoc pre (u ∷ []) (post ++ [])))
      ∙ ap (λ (k : ℕ). map (table list_ini ((pre ++ u ∷ []) ++ (post ++ []))) (number k post))
          (sym (length-append pre (u ∷ []) ∙ z))
      ∙ tables_between (pre ++ u ∷ []) post []

  Changes-split : Changes list_ini g here (number 0 pre) (number (suc (length pre)) post) old new
  Changes-split = record {
    in_place = numbered (t.0, g t.1) refl;
    keys_changed = keys_here (t.0, g t.1) ∙ ap g (sym (keys_here t));
    before_kept =
        tables_between [] pre ((t.0, g t.1) ∷ post) ∙ sym (tables_between [] pre (t ∷ post));
    after_kept = tables_last (t.0, g t.1) ∙ sym (tables_last t);
  }

Changes-at :
    (g : Keys → Keys) (pre : File) (t : Table) (post : File) (f : File) (before : List Section)
    (sec : Section) (after : List Section)
    → f ≡ pre ++ t ∷ post
    → before ≡ number 0 pre
    → sec ≡ (0 + length pre, t.0)
    → after ≡ number (suc (0 + length pre)) post
    → Changes list_ini g sec before after f (modify g sec.0 f)
Changes-at g pre t post f before sec after ef eb es ea =
    let z : 0 + length pre ≡ length pre = omega arith in
    rw ef
      (rw eb (rw es (rw ea (rw z (rw (modify-behind g pre t post) (Changes-split g pre t post))))))

-- A section of a file is changed where it stands.
modify-Changes :
    (g : Keys → Keys) (sec : Section) (f : File) (before after : List Section)
    → number 0 f ≡ before ++ sec ∷ after
    → Changes list_ini g sec before after f (modify g sec.0 f)
modify-Changes g sec f before after h =
    let s = split 0 f before sec after h in
    Changes-at g s.pre s.here s.post f before sec after s.file_eq s.before_eq s.sec_eq s.after_eq

first_named-Located :
    (name : Bytes) (i : ℕ) (f : File) (sec : Section)
    → first_named name i f ≡ ok sec
    → (sec.1 ≡ name)
      × (before : List Section) × (after : List Section) × (number i f ≡ before ++ sec ∷ after)
unfolding first_named number
first_named-Located name i [] sec h = cc
first_named-Located name i ((n, keys) ∷ f) sec h = elim (Bool-cases (bytes_eq n name)) [
  | inl e ↦
      let here = ok-inj (rw e at h) in
      (
        ap (λ (s : Section). s.1) (sym here) ∙ eq_of_bytes_eq n name e,
        [],
        number (suc i) f,
        ap (λ (s : Section). s ∷ number (suc i) f) here,
      )
  | inr e ↦
      let (named, before, after, place) = first_named-Located name (suc i) f sec (rw e at h) in
      (named, (i, n) ∷ before, after, ap (λ l. (i, n) ∷ l) place)
]

appended :
    (name : Bytes) (f : File) (sec : Section)
    → (length f, name) ≡ sec
    → IsAppended list_ini name sec f (f ++ (name, λ k. none) ∷ [])
unfolding number
appended name f sec e =
    let t : Table = (name, λ k. none) in
    rw (← e) (record {
      name_lem = refl;
      at_end = numbered (λ keys. keys) f t [] t refl;
      empty = keys_here (λ keys. keys) f t [] t;
      others_kept = tables_between [] f (t ∷ []) ∙ sym (contents-list f);
    })

pub list_ini-IsIni : IsIni list_ini
list_ini-IsIni = record {
  get_section_lem = λ name f sec h.
      let (named, before, after, place) = first_named-Located name 0 f sec h in
      record { name_lem = named; before = before; after = after; place = place };
  delete_key_lem = λ sec k f before after. modify-Changes (without k) sec f before after;
  set_value_lem = λ sec k v f before after. modify-Changes (assigned k v) sec f before after;
  new_key_lem = λ sec k v f before after e. modify-Changes (added k v) sec f before after;
  delete_section_lem = λ name f.
      contents-list (select (λ t. not (is_named name t)) f)
      ∙ ap (select (λ t. not (is_named name t))) (sym (contents-list f));
  new_section_lem = λ name f sec h. appended name f sec (ok-inj h);
}
