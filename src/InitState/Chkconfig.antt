-- ===== src/InitState/Chkconfig.antt =====
-- What chkconfigOn reads from the lines that chkconfig prints.
use go_network_configurator.Prelude.{
  ℕ, ◌≡◌, refl, ◌∙◌, ap, Bool, true, false, not, ◌&&◌, List, [], ◌∷◌, ◌++◌, ◌==◌, if◌then◌else◌,
  Bytes, codes, bytes_eq, bytes_eq_refl, any, all, map, arith, Bool-cases, inl, inr, append_assoc,
  append-nil,
}
use go_network_configurator.InitState.{is_space, fields_from, fields, after_colon, says_on, line_on}

-- A runlevel's digit, and whether the service is on in it
abbrev pub Flag : Type 0
Flag = ℕ × Bool

-- "3:on"
abbrev pub flag_text : Flag → Bytes
flag_text f = f.0 ∷ b':' ∷ (if f.1 then codes "on" else codes "off")

abbrev pub flags_text : List Flag → Bytes
flags_text [] = []
flags_text (f ∷ flags) = 9 ∷ (flag_text f ++ flags_text flags)

-- The line of a service: its name, and for each runlevel a tab and its flag
abbrev pub chkconfig_line : Bytes → List Flag → Bytes
chkconfig_line name flags = name ++ flags_text flags

-- A text of bytes that are no spaces
abbrev pub is_word : Bytes → Bool
is_word s = all (λ c. not (is_space c)) s

abbrev pub is_level : Flag → Bool
is_level f = not (is_space f.0) && not (f.0 == b':')

pub fields_from-word :
    (word rest field : Bytes)
    → is_word word ≡ true
    → fields_from (word ++ rest) field ≡ fields_from rest (field ++ word)
unfolding fields_from
fields_from-word [] rest field h = ground (arith, append-nil field)
fields_from-word (c ∷ word) rest field h =
    ground (arith, fields_from-word word rest (field ++ c ∷ []), append_assoc field (c ∷ []) word)

flag_text-is_word : (f : Flag) → is_level f ≡ true → is_word (flag_text f) ≡ true
flag_text-is_word (level, true) h = ground arith
flag_text-is_word (level, false) h = ground arith

fields_from-flags :
    (flags : List Flag) (c : ℕ) (field : Bytes)
    → all is_level flags ≡ true
    → fields_from (flags_text flags) (c ∷ field) ≡ (c ∷ field) ∷ map flag_text flags
unfolding fields_from
fields_from-flags [] c field h = refl
fields_from-flags (f ∷ flags) c field h = elim (Bool-cases (is_level f)) [
  | inl level ↦
      ap (λ fs. (c ∷ field) ∷ fs)
        (fields_from-word (flag_text f) (flags_text flags) [] (flag_text-is_word f level)
          ∙ fields_from-flags flags f.0 (b':' ∷ (if f.1 then codes "on" else codes "off"))
              (rw level at h))
  | inr none_ ↦ cc (rw none_ at h)
]

says_on-flag_text : (f : Flag) → is_level f ≡ true → says_on (flag_text f) ≡ f.1
unfolding after_colon bytes_eq
says_on-flag_text (level, true) h = ground arith
says_on-flag_text (level, false) h = ground arith

any-says_on :
    (flags : List Flag)
    → all is_level flags ≡ true
    → any says_on (map flag_text flags) ≡ any (λ f. f.1) flags
any-says_on [] h = refl
any-says_on (f ∷ flags) h = ground (arith, says_on-flag_text f, any-says_on flags)

-- What chkconfigOn makes of a line that chkconfig prints for the service, its name and for each
-- runlevel a tab and its flag: the service is on where it is on in some runlevel.
pub line_on-chkconfig_line :
    (c : ℕ) (name : Bytes) (flags : List Flag)
    → is_word (c ∷ name) ≡ true
    → all is_level flags ≡ true
    → line_on (c ∷ name) (fields (chkconfig_line (c ∷ name) flags)) ≡ any (λ f. f.1) flags
unfolding line_on fields
line_on-chkconfig_line c name flags h k =
    rw (fields_from-word (c ∷ name) (flags_text flags) [] h, fields_from-flags flags c name k)
      (rw (bytes_eq_refl (c ∷ name)) (any-says_on flags k))
