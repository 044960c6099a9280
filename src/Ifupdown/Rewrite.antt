-- ===== src/Ifupdown/Rewrite.antt =====
-- The scan of an existing file in Save of ifupdown.go, over the lines that the scanner gives.
use go_network_configurator.Prelude.{
  ℕ, suc, Bool, true, false, not, ◌&&◌, ◌||◌, List, [], ◌∷◌, ◌++◌, leb, ◌==◌, if◌then◌else◌, Bytes,
  codes, bytes_eq,
}
use go_network_configurator.InitState.{fields}
use go_network_configurator.Spaces.{trim_space}

-- `line[:idx]` for the index of a byte, the whole line where it has none
unfoldable pub before_byte : ℕ → Bytes → Bytes
before_byte b [] = []
before_byte b (c ∷ s) = let rest = before_byte b s in if c == b then [] else c ∷ rest

unfoldable pub has_byte : ℕ → Bytes → Bool
has_byte b [] = false
has_byte b (c ∷ s) = c == b || has_byte b s

-- What a line is for the scan. `auto_line` says whether it lists the interface and `stanza`
-- whether it starts a stanza of it; `bare_stanza` has no name.
pub data LineKind : Type 0 where
  blank comment bare_stanza other : LineKind
  auto_line stanza : Bool → LineKind

-- The name is that of the interface, with what follows a colon in it left out.
abbrev pub is_own : Bytes → Bytes → Bool
is_own name field = bytes_eq name (before_byte b':' field)

unfoldable pub lists : Bytes → List Bytes → Bool
unfolding before_byte
lists name [] = false
lists name (f ∷ fs) = is_own name f || lists name fs

abbrev pub stanza_kind : Bytes → List Bytes → LineKind
stanza_kind name [] = bare_stanza
stanza_kind name (f ∷ fs) = stanza (is_own name f)

-- The switch over the first field; there is one, since the text is not blank.
unfoldable pub kind_of_fields : Bytes → List Bytes → LineKind
unfolding lists
kind_of_fields name [] = other
kind_of_fields name (f ∷ fs) =
    if bytes_eq f (codes "auto") || bytes_eq f (codes "allow-hotplug")
    then auto_line (lists name fs)
    else if bytes_eq f (codes "iface") || bytes_eq f (codes "interface")
    then stanza_kind name fs
    else other

unfoldable pub kind_of : Bytes → Bytes → LineKind
unfolding kind_of_fields has_byte
kind_of name line =
    let text = trim_space (before_byte b'#' line) in
    if not (bytes_eq text [])
    then kind_of_fields name (fields text)
    else if has_byte b'#' line
    then comment
    else blank

-- foundIface, wroteIface and blankLineCount
pub record Scan : Type 0 where
  pub found : Bool
  pub wrote : Bool
  pub blanks : ℕ

module _ (first : Bool) (block : List Bytes) where
  -- `if i == 0` around a Write
  abbrev pub if_first : List Bytes
  if_first = if first then block else []

  -- The block is due: the stanza of the interface has ended, and it is not yet written.
  abbrev pub is_due : Scan → Bool
  is_due s = s.found && not s.wrote

  -- The lines that one line prints, and the state after it
  unfoldable pub scan_line : LineKind → Bytes → Scan → List Bytes × Scan
  scan_line comment line s = (line ∷ [], record s { blanks = 0 })
  scan_line blank line s =
      (if leb (suc s.blanks) 1 then line ∷ [] else [], record s { blanks = suc s.blanks })
  scan_line (auto_line own) line s =
      if own && is_due s
      then (if_first ++ line ∷ [], record { found = false; wrote = true; blanks = 0 })
      else (line ∷ [], record s { blanks = 0 })
  scan_line bare_stanza line s = (line ∷ [], record s { blanks = 0 })
  scan_line (stanza true) line s = ([], record s { found = true; blanks = 0 })
  scan_line (stanza false) line s =
      if is_due s
      then (if_first ++ line ∷ [], record { found = false; wrote = true; blanks = 0 })
      else (if s.found then [] else line ∷ [], record s { blanks = 0 })
  scan_line other line s = (if s.found then [] else line ∷ [], record s { blanks = 0 })

  -- The loop, and the Write after it
  unfoldable pub scan_lines : Bytes → Scan → List Bytes → List Bytes
  unfolding kind_of scan_line
  scan_lines name s [] = if not s.wrote then block else []
  scan_lines name s (line ∷ lines) =
      let (printed, s') = scan_line (kind_of name line) line s in
      printed ++ scan_lines name s' lines

abbrev pub scan_start : Scan
scan_start = record { found = false; wrote = false; blanks = 0 }

-- The new text of an existing file
unfoldable pub rewritten : Bool → List Bytes → Bytes → List Bytes → List Bytes
unfolding scan_lines
rewritten first block name lines = scan_lines first block name scan_start lines
