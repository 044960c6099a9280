-- ===== src/Ifupdown/Cases.antt =====
-- The cases of ReadFile of ifupdown.go that stay in a file keep the names distinct.
use go_network_configurator.Prelude.{
  ℕ, ◌≡◌, refl, Bool, true, false, List, [], ◌∷◌, Option, none, some, if◌then◌else◌, Bytes,
}
use go_network_configurator.Prelude.Exec.{Result, ok, err, Error}
use go_network_configurator.NetTexts.{Texts}
use go_network_configurator.Net.{Ip, IpNet, is_nil, is_v4}
use go_network_configurator.Ifupdown.{IfInterface}
use go_network_configurator.Ifupdown.Read.{
  Parser, on_named, on_current, finish_with, finish_address, note_stanza, read_stanza, read_address,
  now_pending, read_netmask, masked, with_gateway, read_gateway, read_other,
}
use go_network_configurator.Ifupdown.ReadFile.{or_else_stop}
use go_network_configurator.Ifupdown.Names.{
  names, AreDistinct, Keeps, on_named-names, ensured-AreDistinct, note_stanza-Keeps,
}
use go_network_configurator.Ifupdown.Kept.{read_option-Keeps}

-- A parser whose interfaces have distinct names, and a result that is such a parser or an error
abbrev pub IsGood : Parser → Type 0
IsGood p = AreDistinct (names p.interfaces)

unfoldable pub GoodResult : Result Parser → Type 0
GoodResult (err e) = Unit {0}
GoodResult (ok p) = IsGood p

unfoldable pub GoodList : Result (List IfInterface) → Type 0
GoodList (err e) = Unit {0}
GoodList (ok interfaces) = AreDistinct (names interfaces)

pub if-GoodResult :
    (b : Bool) (x y : Result Parser) → GoodResult x → GoodResult y → GoodResult (if b then x else y)
if-GoodResult true x y h k = h
if-GoodResult false x y h k = k

on_named-AreDistinct :
    (name : Bytes) (f : IfInterface → IfInterface) (interfaces : List IfInterface)
    → Keeps f
    → AreDistinct (names interfaces)
    → AreDistinct (names (on_named name f interfaces))
on_named-AreDistinct name f interfaces k h = rw (on_named-names name f k interfaces) h

on_current-IsGood :
    (f : IfInterface → IfInterface) (current : Option Bytes) (p : Parser)
    → Keeps f
    → IsGood p
    → IsGood (on_current f current p)
on_current-IsGood f none p k h = h
on_current-IsGood f (some name) p k h = on_named-AreDistinct name f p.interfaces k h

finish_with-IsGood : (a : Option IpNet) (p : Parser) → IsGood p → IsGood (finish_with a p)
finish_with-IsGood none p h = h
finish_with-IsGood (some address) p h = on_current-IsGood _ p.current p (λ i. refl) h

pub finish_address-IsGood : (p : Parser) → IsGood p → IsGood (finish_address p)
unfolding finish_address
finish_address-IsGood p h = finish_with-IsGood p.pending p h

pub error-GoodResult : (e : Error) → GoodResult (err e)
unfolding GoodResult
error-GoodResult e = tt

pub ok-GoodResult : (p : Parser) → IsGood p → GoodResult (ok p)
unfolding GoodResult
ok-GoodResult p h = h

chosen_gateway :
    (b : Bool) (i : IfInterface) (gateway : Ip)
    → (if b then record i { gateway4 = gateway } else record i { gateway6 = gateway }).name ≡ i.name
chosen_gateway true i gateway = refl
chosen_gateway false i gateway = refl

pub error-GoodList : (e : Error) → GoodList (err e)
unfolding GoodList
error-GoodList e = tt

pub or_else_stop-GoodResult :
    (r : Result Parser) (f : Parser → Result Parser)
    → GoodResult r
    → ((p : Parser) → IsGood p → GoodResult (f p))
    → GoodResult (or_else_stop r f)
unfolding GoodResult
or_else_stop-GoodResult (err e) f h k = tt
or_else_stop-GoodResult (ok p) f h k = k p h

-- The cases of the switch
pub read_stanza-GoodResult :
    (base file : Bytes) (args : List Bytes) (p : Parser)
    → IsGood p
    → GoodResult (read_stanza base file args p)
unfolding read_stanza GoodResult
read_stanza-GoodResult base file [] p h = tt
read_stanza-GoodResult base file (f ∷ mode) p h =
    on_named-AreDistinct _ (note_stanza file mode) _ (note_stanza-Keeps file mode)
      (ensured-AreDistinct base _ _ (finish_address-IsGood p h))

now_pending-GoodResult : (r : Result IpNet) (p : Parser) → IsGood p → GoodResult (now_pending r p)
unfolding GoodResult
now_pending-GoodResult (err e) p h = tt
now_pending-GoodResult (ok a) p h = h

masked-GoodResult :
    (a : IpNet) (r : Result Bytes) (p : Parser) → IsGood p → GoodResult (masked a r p)
unfolding GoodResult
masked-GoodResult a (err e) p h = tt
masked-GoodResult a (ok m) p h = h

module _ (texts : Texts) (atoi : Bytes → Result ℕ) where
  pub read_address-GoodResult :
      (args : List Bytes) (current : Option Bytes) (p : Parser)
      → IsGood p
      → GoodResult (read_address texts atoi args current p)
  unfolding read_address
  read_address-GoodResult [] current p h = error-GoodResult _
  read_address-GoodResult (f ∷ fs) none p h = error-GoodResult _
  read_address-GoodResult (f ∷ fs) (some name) p h =
      now_pending-GoodResult _ (finish_address p) (finish_address-IsGood p h)

  pub read_netmask-GoodResult :
      (args : List Bytes) (pending : Option IpNet) (p : Parser)
      → IsGood p
      → GoodResult (read_netmask texts atoi args pending p)
  unfolding read_netmask
  read_netmask-GoodResult [] pending p h = error-GoodResult _
  read_netmask-GoodResult (f ∷ fs) none p h = error-GoodResult _
  read_netmask-GoodResult (f ∷ fs) (some a) p h = masked-GoodResult a _ p h

  gateway-Keeps : (gateway : Ip) → Keeps (with_gateway gateway)
  gateway-Keeps gateway i = chosen_gateway (is_v4 gateway) i gateway

  pub read_gateway-GoodResult :
      (args : List Bytes) (current : Option Bytes) (p : Parser)
      → IsGood p
      → GoodResult (read_gateway texts atoi args current p)
  unfolding read_gateway
  read_gateway-GoodResult [] current p h = error-GoodResult _
  read_gateway-GoodResult (f ∷ fs) none p h =
      if-GoodResult (is_nil (texts.parse_ip f)) _ _ (error-GoodResult _) (error-GoodResult _)
  read_gateway-GoodResult (f ∷ fs) (some name) p h =
      if-GoodResult (is_nil (texts.parse_ip f)) _ _ (error-GoodResult _)
        (ok-GoodResult _ (on_current-IsGood _ (some name) p (gateway-Keeps (texts.parse_ip f)) h))

  pub read_other-GoodResult :
      (key : Bytes) (args : List Bytes) (p : Parser)
      → IsGood p
      → GoodResult (read_other texts atoi key args p)
  unfolding read_other
  read_other-GoodResult key [] p h = error-GoodResult _
  read_other-GoodResult key (v ∷ vs) p h =
      ok-GoodResult _
        (on_current-IsGood _ p.current p (read_option-Keeps texts atoi key (v ∷ vs)) h)
