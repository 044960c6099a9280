-- ===== src/Ifupdown/Distinct.antt =====
-- No two interfaces that ReadFile of ifupdown.go leaves share a name.
use go_network_configurator.Prelude.{
  ℕ, zero, suc, ◌||◌, ◌++◌, ◌≡◌, List, [], ◌∷◌, Bool-cases, inl, inr, Bytes, bytes_eq, codes, ℤ,
}
use go_network_configurator.Prelude.Exec.{Result, ok, err, ok-inj}
use go_network_configurator.NetTexts.{Texts}
use go_network_configurator.Backups.{DirEntry}
use go_network_configurator.Networkd.Read.{sort_entries}
use go_network_configurator.Linux.NewConfigurator.{if_up_down_config}
use go_network_configurator.Ifupdown.{IfInterface, IfUpDown}
use go_network_configurator.InitState.{fields}
use go_network_configurator.Spaces.{trim_space}
use go_network_configurator.Ifupdown.Rewrite.{before_byte}
use go_network_configurator.Ifupdown.Read.{Parser, start_file}
use go_network_configurator.Ifupdown.ReadFile.{
  Sources, with_interfaces, next_entries, read_entries, read_listed, read_directory, read_source,
  read_fields, read_line, read_each, finished, read_opened, read_file, to_if_up_down,
  new_if_up_down,
}
use go_network_configurator.Ifupdown.Names.{names, AreDistinct}
use go_network_configurator.Ifupdown.Cases.{
  IsGood, GoodResult, GoodList, if-GoodResult, finish_address-IsGood, error-GoodResult,
  ok-GoodResult, error-GoodList, or_else_stop-GoodResult, read_stanza-GoodResult,
  read_address-GoodResult, read_netmask-GoodResult, read_gateway-GoodResult, read_other-GoodResult,
}

ok-GoodList : (is_ : List IfInterface) → AreDistinct (names is_) → GoodList (ok is_)
unfolding GoodList
ok-GoodList is_ h = h

with_interfaces-GoodResult :
    (p : Parser) (r : Result (List IfInterface)) → GoodList r → GoodResult (with_interfaces p r)
unfolding GoodResult GoodList
with_interfaces-GoodResult p (err e) h = tt
with_interfaces-GoodResult p (ok is_) h = h

finished-GoodList :
    (texts : Texts) (sources : Sources) (base : Bytes)
    (read : Bytes → List IfInterface → Result (List IfInterface)) (r : Result Parser)
    → GoodResult r
    → GoodList (finished texts sources base read r)
unfolding GoodResult GoodList finished
finished-GoodList texts sources base read (err e) h = tt
finished-GoodList texts sources base read (ok p) h = finish_address-IsGood p h

module _ (texts : Texts) (sources : Sources) (base : Bytes) where
  module _ (read : Bytes → List IfInterface → Result (List IfInterface))
      (reads_good : (file : Bytes) (is_ : List IfInterface)
        → AreDistinct (names is_)
        → GoodList (read file is_)) where
    next_entries-GoodList :
        (f : List IfInterface → Result (List IfInterface)) (r : Result (List IfInterface))
        → GoodList r
        → ((is_ : List IfInterface) → AreDistinct (names is_) → GoodList (f is_))
        → GoodList (next_entries texts sources base read f r)
    unfolding GoodList
    next_entries-GoodList f (err e) h k = tt
    next_entries-GoodList f (ok is_) h k = k is_ h

    read_entries-GoodList :
        (dir : Bytes) (entries : List DirEntry) (is_ : List IfInterface)
        → AreDistinct (names is_)
        → GoodList (read_entries texts sources base read dir entries is_)
    unfolding read_entries
    read_entries-GoodList dir [] is_ h = ok-GoodList is_ h
    read_entries-GoodList dir (e ∷ entries) is_ h = elim (Bool-cases e.is_dir) [
      | inl d ↦ rw d (read_entries-GoodList dir entries is_ h)
      | inr d ↦ rw d (
          next_entries-GoodList (read_entries texts sources base read dir entries) _
            (reads_good (dir ++ b'/' ∷ e.name) is_ h) (read_entries-GoodList dir entries))
    ]

    read_listed-GoodList :
        (dir : Bytes) (r : Result (List DirEntry)) (is_ : List IfInterface)
        → AreDistinct (names is_)
        → GoodList (read_listed texts sources base read dir r is_)
    unfolding read_listed
    read_listed-GoodList dir (err e) is_ h = error-GoodList e
    read_listed-GoodList dir (ok entries) is_ h =
        read_entries-GoodList dir (sort_entries entries) is_ h

    read_directory-GoodResult :
        (args : List Bytes) (p : Parser)
        → IsGood p
        → GoodResult (read_directory texts sources base read args p)
    unfolding read_directory
    read_directory-GoodResult [] p h = error-GoodResult _
    read_directory-GoodResult (dir ∷ fs) p h =
        with_interfaces-GoodResult p _
          (read_listed-GoodList dir (sources.read_dir dir) p.interfaces h)

    read_source-GoodResult :
        (args : List Bytes) (p : Parser)
        → IsGood p
        → GoodResult (read_source texts sources base read args p)
    unfolding read_source
    read_source-GoodResult [] p h = error-GoodResult _
    read_source-GoodResult (file ∷ fs) p h =
        with_interfaces-GoodResult p _ (reads_good file p.interfaces h)

    read_fields-GoodResult :
        (file : Bytes) (fs : List Bytes) (p : Parser)
        → IsGood p
        → GoodResult (read_fields texts sources base read file fs p)
    unfolding read_fields
    read_fields-GoodResult file [] p h = ok-GoodResult p h
    read_fields-GoodResult file (key ∷ args) p h =
        let is_ = bytes_eq key in
        if-GoodResult (is_ (codes "auto") || is_ (codes "allow-hotplug")) _ _ (ok-GoodResult p h) (
          if-GoodResult (is_ (codes "source-directory")) _ _ (read_directory-GoodResult args p h) (
            if-GoodResult (is_ (codes "source")) _ _ (read_source-GoodResult args p h) (
              if-GoodResult (is_ (codes "iface") || is_ (codes "interface")) _ _
                (read_stanza-GoodResult base file args p h)
                (if-GoodResult (is_ (codes "address")) _ _
                  (read_address-GoodResult texts sources.atoi args p.current p h)
                  (if-GoodResult (is_ (codes "netmask")) _ _
                    (read_netmask-GoodResult texts sources.atoi args p.pending p h)
                    (if-GoodResult (is_ (codes "gateway")) _ _
                      (read_gateway-GoodResult texts sources.atoi args p.current p h)
                      (read_other-GoodResult texts sources.atoi key args p h)))))))

    read_line-GoodResult :
        (file line : Bytes) (p : Parser)
        → IsGood p
        → GoodResult (read_line texts sources base read file line p)
    unfolding read_line
    read_line-GoodResult file line p h =
        read_fields-GoodResult file (fields (trim_space (before_byte b'#' line))) p h

    read_each-GoodResult :
        (file : Bytes) (lines : List Bytes) (p : Parser)
        → IsGood p
        → GoodResult (read_each texts sources base read file lines p)
    unfolding read_each
    read_each-GoodResult file [] p h = ok-GoodResult p h
    read_each-GoodResult file (line ∷ lines) p h =
        or_else_stop-GoodResult (read_line texts sources base read file line p)
          (read_each texts sources base read file lines) (read_line-GoodResult file line p h)
          (read_each-GoodResult file lines)

    read_opened-GoodList :
        (file : Bytes) (r : Result (List Bytes)) (is_ : List IfInterface)
        → AreDistinct (names is_)
        → GoodList (read_opened texts sources base read file r is_)
    unfolding read_opened
    read_opened-GoodList file (err e) is_ h = error-GoodList e
    read_opened-GoodList file (ok lines) is_ h =
        finished-GoodList texts sources base read
          (read_each texts sources base read file lines (start_file is_))
          (read_each-GoodResult file lines (start_file is_) h)

  read_file-GoodList :
      (n : ℕ) (file : Bytes) (is_ : List IfInterface)
      → AreDistinct (names is_)
      → GoodList (read_file texts sources base n file is_)
  unfolding read_file
  read_file-GoodList zero file is_ h = error-GoodList _
  read_file-GoodList (suc n) file is_ h =
      read_opened-GoodList (read_file texts sources base n) (read_file-GoodList n) file
        (sources.read_lines file) is_ h

to_if_up_down-AreDistinct :
    (config : Bytes) (retention : ℤ) (r : Result (List IfInterface)) (i : IfUpDown)
    → GoodList r
    → to_if_up_down config retention r ≡ ok i
    → AreDistinct (names i.interfaces)
unfolding GoodList
to_if_up_down-AreDistinct config retention (err e) i h b = cc
to_if_up_down-AreDistinct config retention (ok is_) i h b = rw (← (ok-inj b)) h

-- Where newIfUpDown succeeds, no two interfaces share a name, whatever the files hold, and however
-- they name each other.
pub new_if_up_down-AreDistinct :
    (texts : Texts) (sources : Sources) (depth : ℕ) (retention : ℤ) (i : IfUpDown)
    → new_if_up_down texts sources depth retention ≡ ok i
    → AreDistinct (names i.interfaces)
unfolding new_if_up_down
new_if_up_down-AreDistinct texts sources depth retention i h =
    to_if_up_down-AreDistinct if_up_down_config retention
      (read_file texts sources if_up_down_config depth if_up_down_config []) i
      (read_file-GoodList texts sources if_up_down_config depth if_up_down_config [] tt) h
