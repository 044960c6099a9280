-- ===== src/Ifupdown/Lines.antt =====
-- The lines that the scan of Save of ifupdown.go keeps, and what it does to one line.
use go_network_configurator.Prelude.{
  ℕ, suc, ◌≡◌, refl, Bool, true, false, not, List, [], ◌∷◌, ◌++◌, leb, if◌then◌else◌, Bytes, All,
}
use go_network_configurator.Ifupdown.Rewrite.{
  LineKind, blank, comment, bare_stanza, other, auto_line, stanza, kind_of, Scan, scan_line,
}

-- A line that starts a stanza of the interface
abbrev pub starts_own : LineKind → Bool
starts_own (stanza own) = own
starts_own k = false

-- A line that ends a stanza of the interface
abbrev pub ends_own : LineKind → Bool
ends_own (stanza own) = not own
ends_own (auto_line own) = own
ends_own k = false

-- A blank line is kept where none is before it.
abbrev pub keeps_outside : ℕ → LineKind → Bool
keeps_outside n blank = leb (suc n) 1
keeps_outside n k = true

-- In a stanza of the interface, its options and every line that starts a stanza are dropped.
abbrev pub keeps_inside : ℕ → LineKind → Bool
keeps_inside n blank = leb (suc n) 1
keeps_inside n other = false
keeps_inside n (stanza own) = false
keeps_inside n k = true

-- The number of blank lines that end at a line
abbrev pub count_blank : LineKind → ℕ → ℕ
count_blank blank n = suc n
count_blank k n = 0

module _ (name : Bytes) where
  unfoldable pub filtered : (ℕ → LineKind → Bool) → ℕ → List Bytes → List Bytes
  filtered keeps n [] = []
  filtered keeps n (line ∷ lines) =
      let rest = filtered keeps (count_blank (kind_of name line) n) lines in
      if keeps n (kind_of name line) then line ∷ rest else rest

  -- The lines that stay outside the stanzas of the interface, and those inside
  abbrev pub outside : List Bytes → List Bytes
  outside = filtered keeps_outside 0

  abbrev pub inside : List Bytes → List Bytes
  inside = filtered keeps_inside 0

  -- No line starts a stanza of the interface.
  abbrev pub HasNoOwn : List Bytes → Type 0
  HasNoOwn = All (λ line. starts_own (kind_of name line) ≡ false)

  -- No line ends a stanza of the interface.
  abbrev pub StaysOwn : List Bytes → Type 0
  StaysOwn = All (λ line. ends_own (kind_of name line) ≡ false)

abbrev pub at_scan : Bool → Bool → ℕ → Scan
at_scan found wrote n = record { found = found; wrote = wrote; blanks = n }

unfoldable pub blanks_after : Bytes → ℕ → List Bytes → ℕ
blanks_after name n [] = n
blanks_after name n (line ∷ lines) = blanks_after name (count_blank (kind_of name line) n) lines

module _ (first : Bool) (block : List Bytes) where
  -- One line outside, one inside, and one after the block was written
  pub line_outside :
      (k : LineKind) (line : Bytes) (wrote : Bool) (n : ℕ)
      → starts_own k ≡ false
      → scan_line first block k line (at_scan false wrote n)
        ≡ (if keeps_outside n k then line ∷ [] else [], at_scan false wrote (count_blank k n))
  unfolding scan_line
  line_outside blank line wrote n h = refl
  line_outside comment line wrote n h = refl
  line_outside bare_stanza line wrote n h = refl
  line_outside other line wrote n h = refl
  line_outside (auto_line true) line wrote n h = refl
  line_outside (auto_line false) line wrote n h = refl
  line_outside (stanza true) line wrote n h = cc
  line_outside (stanza false) line wrote n h = refl

  pub line_inside :
      (k : LineKind) (line : Bytes) (n : ℕ)
      → ends_own k ≡ false
      → scan_line first block k line (at_scan true false n)
        ≡ (if keeps_inside n k then line ∷ [] else [], at_scan true false (count_blank k n))
  unfolding scan_line
  line_inside blank line n h = refl
  line_inside comment line n h = refl
  line_inside bare_stanza line n h = refl
  line_inside other line n h = refl
  line_inside (auto_line true) line n h = cc
  line_inside (auto_line false) line n h = refl
  line_inside (stanza true) line n h = refl
  line_inside (stanza false) line n h = cc

  pub line_lost :
      (k : LineKind) (line : Bytes) (n : ℕ)
      → scan_line first block k line (at_scan true true n)
        ≡ (if keeps_inside n k then line ∷ [] else [], at_scan true true (count_blank k n))
  unfolding scan_line
  line_lost blank line n = refl
  line_lost comment line n = refl
  line_lost bare_stanza line n = refl
  line_lost other line n = refl
  line_lost (auto_line true) line n = refl
  line_lost (auto_line false) line n = refl
  line_lost (stanza true) line n = refl
  line_lost (stanza false) line n = refl

  pub line_ends :
      (k : LineKind) (line : Bytes) (n : ℕ)
      → ends_own k ≡ true
      → scan_line first block k line (at_scan true false n)
        ≡ ((if first then block else []) ++ line ∷ [], at_scan false true 0)
  unfolding scan_line
  line_ends (auto_line true) line n h = refl
  line_ends (stanza false) line n h = refl
  line_ends blank line n h = cc
  line_ends comment line n h = cc
  line_ends bare_stanza line n h = cc
  line_ends other line n h = cc
  line_ends (auto_line false) line n h = cc
  line_ends (stanza true) line n h = cc

  pub line_starts :
      (k : LineKind) (line : Bytes) (wrote : Bool) (n : ℕ)
      → starts_own k ≡ true
      → scan_line first block k line (at_scan false wrote n) ≡ ([], at_scan true wrote 0)
  unfolding scan_line
  line_starts (stanza true) line wrote n h = refl
  line_starts (stanza false) line wrote n h = cc
  line_starts blank line wrote n h = cc
  line_starts comment line wrote n h = cc
  line_starts bare_stanza line wrote n h = cc
  line_starts other line wrote n h = cc
  line_starts (auto_line own) line wrote n h = cc

  pub line_after :
      (k : LineKind) (line : Bytes)
      → ends_own k ≡ true
      → scan_line first block k line (at_scan false true 0) ≡ (line ∷ [], at_scan false true 0)
  unfolding scan_line
  line_after (auto_line true) line h = refl
  line_after (stanza false) line h = refl
  line_after blank line h = cc
  line_after comment line h = cc
  line_after bare_stanza line h = cc
  line_after other line h = cc
  line_after (auto_line false) line h = cc
  line_after (stanza true) line h = cc
