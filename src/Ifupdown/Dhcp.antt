-- ===== src/Ifupdown/Dhcp.antt =====
-- dhcpState and setDHCP of ifupdown.go.
use go_network_configurator.Prelude.{
  ◌≡◌, refl, ◌∙◌, Bool, true, false, not, ◌&&◌, [], ◌++◌, if◌then◌else◌, Bytes, codes, bytes_eq,
  eq_of_bytes_eq, Bool-cases, ◌⊎◌, inl, inr,
}
use go_network_configurator.Prelude.Exec.{Result, ok, err, Error, ok-inj}
use go_network_configurator.InitState.{fields, fields_from}
use go_network_configurator.Ifupdown.{
  IfInterface, inet, inet6, dhcp, first_field, second_field, stanza_family, dhcp_state, with_mode,
  new_stanza, is_fixed_method, switch_method, set_dhcp,
}

-- The flag of the interface says what its stanza does: DHCP exactly if that is its method.
abbrev pub IsConsistent : IfInterface → Type 0
IsConsistent i = i.is_dhcp ≡ bytes_eq (second_field (fields i.mode)) dhcp

-- The state of an interface with a changed mode and flag
abbrev Fits : IfInterface → IfInterface → Bool → Bool → Type 0
Fits i i' dhcp4 dhcp6 =
    (dhcp_state i' ≡ (dhcp4, dhcp6))
    × IsConsistent i'
    × (i' ≡ record i { mode = i'.mode; is_dhcp = i'.is_dhcp })

new_stanza-Fits :
    (i i' : IfInterface) (dhcp4 dhcp6 : Bool)
    → new_stanza i dhcp4 dhcp6 ≡ ok i'
    → Fits i i' dhcp4 dhcp6
unfolding new_stanza dhcp_state fields_from
new_stanza-Fits i i' true true h = cc
new_stanza-Fits i i' true false h = rw (← (ok-inj h)) (refl, refl, refl)
new_stanza-Fits i i' false true h = rw (← (ok-inj h)) (refl, refl, refl)
new_stanza-Fits i i' false false h = rw (← (ok-inj h)) (refl, refl, refl)

abbrev family_text : Bool → Bytes
family_text true = inet6
family_text false = inet

-- The flag of a family, and that of the other
abbrev own : Bool → Bool → Bool → Bool
own six dhcp4 dhcp6 = if six then dhcp6 else dhcp4

dhcp_state-of :
    (i : IfInterface) (six enable : Bool)
    → stanza_family i ≡ family_text six
    → i.is_dhcp ≡ enable
    → dhcp_state i ≡ (enable && not six, enable && six)
unfolding dhcp_state bytes_eq
dhcp_state-of i true true f e = rw e (rw f refl)
dhcp_state-of i true false f e = rw e refl
dhcp_state-of i false true f e = rw e (rw f refl)
dhcp_state-of i false false f e = rw e refl

module _ (i : IfInterface) (family method : Bytes) where
  switch-same :
      (enable : Bool) → bytes_eq method dhcp ≡ enable → switch_method i family method enable ≡ i
  unfolding switch_method
  switch-same true e = rw e refl
  switch-same false e = rw e refl

  switch-on :
      bytes_eq method dhcp ≡ false
      → switch_method i family method true ≡ with_mode i (family ++ codes " dhcp") true
  unfolding switch_method
  switch-on e = rw e refl

  switch-off :
      bytes_eq method dhcp ≡ true
      → switch_method i family method false ≡ with_mode i (family ++ codes " static") false
  unfolding switch_method
  switch-off e = rw e refl

Fits-on :
    (i : IfInterface) (six : Bool)
    → Fits i (with_mode i (family_text six ++ codes " dhcp") true) (not six) six
unfolding dhcp_state fields_from
Fits-on i true = (refl, refl, refl)
Fits-on i false = (refl, refl, refl)

Fits-off :
    (i : IfInterface) (six : Bool)
    → Fits i (with_mode i (family_text six ++ codes " static") false) false false
unfolding dhcp_state fields_from
Fits-off i true = (refl, refl, refl)
Fits-off i false = (refl, refl, refl)

-- A stanza of one family, switched on or off
switched :
    (i : IfInterface) (six enable : Bool)
    → stanza_family i ≡ family_text six
    → IsConsistent i
    → Fits i
        (switch_method i (family_text six) (second_field (fields i.mode)) enable)
        (enable && not six)
        (enable && six)
switched i six true f c =
    let method = second_field (fields i.mode) in
    elim (Bool-cases (bytes_eq method dhcp)) [
      | inl m ↦
          rw (switch-same i (family_text six) method true m)
            (dhcp_state-of i six true f (c ∙ m), c, refl)
      | inr m ↦ rw (switch-on i (family_text six) method m) (Fits-on i six)
    ]
switched i six false f c =
    let method = second_field (fields i.mode) in
    elim (Bool-cases (bytes_eq method dhcp)) [
      | inl m ↦ rw (switch-off i (family_text six) method m) (Fits-off i six)
      | inr m ↦
          rw (switch-same i (family_text six) method false m)
            (dhcp_state-of i six false f (c ∙ m), c, refl)
    ]

stanza_family-cases :
    (i : IfInterface)
    → (stanza_family i ≡ []) ⊎ ((six : Bool) × (stanza_family i ≡ family_text six))
unfolding stanza_family
stanza_family-cases i =
    let family = first_field (fields i.mode) in
    elim (Bool-cases (bytes_eq family inet)) [
      | inl e ↦ inr (false, rw e (eq_of_bytes_eq family inet e))
      | inr e ↦ elim (Bool-cases (bytes_eq family inet6)) [
        | inl e' ↦ inr (true, rw e (rw e' (eq_of_bytes_eq family inet6 e')))
        | inr e' ↦ inl (rw e (rw e' refl))
      ]
    ]

guarded :
    (a b c : Bool) (e1 e2 e3 : Error) {x i' : IfInterface}
    → (if a then err e1 else if b then err e2 else if c then err e3 else ok x) ≡ ok i'
    → (b ≡ false) × (x ≡ i')
guarded true b c e1 e2 e3 h = cc
guarded false true c e1 e2 e3 h = cc
guarded false false true e1 e2 e3 h = cc
guarded false false false e1 e2 e3 h = (refl, ok-inj h)

unless_ppp :
    (a : Bool) (e : Error) {r : Result IfInterface} {i' : IfInterface}
    → (if a then err e else r) ≡ ok i'
    → r ≡ ok i'
unless_ppp true e h = cc
unless_ppp false e h = h

-- What setDHCP does on a stanza of a family
set_dhcp-known :
    (i i' : IfInterface) (six dhcp4 dhcp6 : Bool)
    → stanza_family i ≡ family_text six
    → set_dhcp i dhcp4 dhcp6 ≡ ok i'
    → (own (not six) dhcp4 dhcp6 ≡ false)
      × (switch_method i (family_text six) (second_field (fields i.mode)) (own six dhcp4 dhcp6)
          ≡ i')
unfolding set_dhcp bytes_eq
set_dhcp-known i i' true dhcp4 dhcp6 f h =
    guarded i.is_ppp dhcp4 (is_fixed_method (second_field (fields i.mode))) _ _ _ (rw f at h)
set_dhcp-known i i' false dhcp4 dhcp6 f h =
    guarded i.is_ppp dhcp6 (is_fixed_method (second_field (fields i.mode))) _ _ _ (rw f at h)

set_dhcp-unknown :
    (i i' : IfInterface) (dhcp4 dhcp6 : Bool)
    → stanza_family i ≡ []
    → set_dhcp i dhcp4 dhcp6 ≡ ok i'
    → new_stanza i dhcp4 dhcp6 ≡ ok i'
unfolding set_dhcp bytes_eq
set_dhcp-unknown i i' dhcp4 dhcp6 f h = unless_ppp i.is_ppp _ (rw f at h)

Fits-family :
    (i i' : IfInterface) (six dhcp4 dhcp6 : Bool)
    → own (not six) dhcp4 dhcp6 ≡ false
    → Fits i i' (own six dhcp4 dhcp6 && not six) (own six dhcp4 dhcp6 && six)
    → Fits i i' dhcp4 dhcp6
Fits-family i i' true dhcp4 true e f = rw e f
Fits-family i i' true dhcp4 false e f = rw e f
Fits-family i i' false true dhcp6 e f = rw e f
Fits-family i i' false false dhcp6 e f = rw e f

-- Where setDHCP succeeds on a stanza whose flag fits its method, dhcpState says what was asked for,
-- the flag fits again, and only the mode and the flag have changed.
pub set_dhcp_succeeded :
    (i i' : IfInterface) (dhcp4 dhcp6 : Bool)
    → IsConsistent i
    → set_dhcp i dhcp4 dhcp6 ≡ ok i'
    → (dhcp_state i' ≡ (dhcp4, dhcp6))
      × IsConsistent i'
      × (i' ≡ record i { mode = i'.mode; is_dhcp = i'.is_dhcp })
set_dhcp_succeeded i i' dhcp4 dhcp6 c h = elim (stanza_family-cases i) [
  | inl f ↦ new_stanza-Fits i i' dhcp4 dhcp6 (set_dhcp-unknown i i' dhcp4 dhcp6 f h)
  | inr (six, f) ↦
      let (other, done) = set_dhcp-known i i' six dhcp4 dhcp6 f h in
      Fits-family i i' six dhcp4 dhcp6 other
        (rw (← done) (switched i six (own six dhcp4 dhcp6) f c))
]
