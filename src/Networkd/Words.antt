-- ===== src/Networkd/Words.antt =====
-- The words of a text, joined by spaces and split again.
use go_network_configurator.Prelude.{
  ℕ, ◌≡◌, refl, ◌∙◌, ap, sym, true, false, List, [], ◌∷◌, ◌++◌, arith, Bytes, bytes_eq, All,
  Bool-cases, inl, inr, append-nil,
}
use go_network_configurator.InitState.{is_space, push_field, fields_from, fields}
use go_network_configurator.InitState.Chkconfig.{is_word, fields_from-word}
use go_network_configurator.Linux.Dns.{joined}

-- A word is not empty and has no space in it.
abbrev pub IsWord : Bytes → Type 0
IsWord s = (is_word s ≡ true) × (bytes_eq s [] ≡ false)

is_word-snoc :
    (field : Bytes) (c : ℕ)
    → is_word field ≡ true
    → is_space c ≡ false
    → is_word (field ++ c ∷ []) ≡ true
is_word-snoc [] c h e = rw e refl
is_word-snoc (x ∷ field) c h e = ground (arith, is_word-snoc field c)

push_field-words :
    (field : Bytes) (fs : List Bytes)
    → is_word field ≡ true
    → All IsWord fs
    → All IsWord (push_field field fs)
unfolding bytes_eq
push_field-words [] fs h k = k
push_field-words (c ∷ field) fs h k = ((h, refl), k)

fields_from-words : (s field : Bytes) → is_word field ≡ true → All IsWord (fields_from s field)
unfolding fields_from
fields_from-words [] field h = push_field-words field [] h tt
fields_from-words (c ∷ s) field h = elim (Bool-cases (is_space c)) [
  | inl e ↦ rw e (push_field-words field (fields_from s []) h (fields_from-words s [] refl))
  | inr e ↦ rw e (fields_from-words s (field ++ c ∷ []) (is_word-snoc field c h e))
]

pub fields-words : (s : Bytes) → All IsWord (fields s)
unfolding fields
fields-words s = fields_from-words s [] refl

push_field-word : (x : Bytes) (fs : List Bytes) → IsWord x → push_field x fs ≡ x ∷ fs
unfolding bytes_eq
push_field-word [] fs h = cc
push_field-word (c ∷ x) fs h = refl

-- What is joined is split into the same words.
pub fields-joined : (ws : List Bytes) → All IsWord ws → fields (joined ws) ≡ ws
unfolding fields joined fields_from
fields-joined [] h = refl
fields-joined (x ∷ []) (h, k) =
    ap (λ s. fields_from s []) (sym (append-nil x))
    ∙ fields_from-word x [] [] h.0
    ∙ push_field-word x [] h
fields-joined (x ∷ y ∷ ws) (h, k) =
    fields_from-word x (32 ∷ joined (y ∷ ws)) [] h.0
    ∙ push_field-word x (fields_from (joined (y ∷ ws)) []) h
    ∙ ap (λ fs. x ∷ fs) (fields-joined (y ∷ ws) k)
