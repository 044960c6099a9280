-- ===== src/Ifupdown/Scanned.antt =====
-- The scan of Save of ifupdown.go, group of lines by group of lines.
use go_network_configurator.Prelude.{
  ℕ, ◌≡◌, refl, sym, ◌∙◌, ap, Bool, true, false, List, [], ◌∷◌, ◌++◌, append_assoc, if◌then◌else◌,
  Bytes,
}
use go_network_configurator.Ifupdown.Rewrite.{kind_of, Scan, scan_line, scan_lines, rewritten}
use go_network_configurator.Ifupdown.Lines.{
  starts_own, ends_own, keeps_outside, keeps_inside, count_blank, filtered, outside, inside,
  HasNoOwn, StaysOwn, at_scan, blanks_after, line_outside, line_inside, line_lost, line_ends,
  line_starts, line_after,
}

-- A line that is printed on a condition, before other lines
if-append :
    (b : Bool) (line : Bytes) (lines more : List Bytes)
    → (if b then line ∷ [] else []) ++ (lines ++ more) ≡ (if b then line ∷ lines else lines) ++ more
if-append true line lines more = refl
if-append false line lines more = refl

if-line :
    (b : Bool) (line : Bytes) (lines : List Bytes)
    → (if b then line ∷ [] else []) ++ lines ≡ (if b then line ∷ lines else lines)
if-line true line lines = refl
if-line false line lines = refl

module _ (first : Bool) (block : List Bytes) where
  module _ (name : Bytes) where
    -- The scan of one line and the rest
    pub scan-line :
        (s s' : Scan) (line : Bytes) (lines printed : List Bytes)
        → scan_line first block (kind_of name line) line s ≡ (printed, s')
        → scan_lines first block name s (line ∷ lines)
          ≡ printed ++ scan_lines first block name s' lines
    unfolding scan_lines
    scan-line s s' line lines printed h = rw h refl

    pub scan-outside :
        (wrote : Bool) (n : ℕ) (lines rest : List Bytes)
        → HasNoOwn name lines
        → scan_lines first block name (at_scan false wrote n) (lines ++ rest)
          ≡ filtered name keeps_outside n lines
            ++ scan_lines first block name (at_scan false wrote (blanks_after name n lines)) rest
    unfolding filtered blanks_after
    scan-outside wrote n [] rest h = refl
    scan-outside wrote n (line ∷ lines) rest (h, hs) =
        scan-line (at_scan false wrote n) (at_scan false wrote (count_blank (kind_of name line) n))
          line (lines ++ rest) _ (line_outside first block (kind_of name line) line wrote n h)
        ∙ ap (λ more. (if keeps_outside n (kind_of name line) then line ∷ [] else []) ++ more)
            (scan-outside wrote (count_blank (kind_of name line) n) lines rest hs)
        ∙ if-append (keeps_outside n (kind_of name line)) line _ _

    pub scan-inside :
        (n : ℕ) (lines rest : List Bytes)
        → StaysOwn name lines
        → scan_lines first block name (at_scan true false n) (lines ++ rest)
          ≡ filtered name keeps_inside n lines
            ++ scan_lines first block name (at_scan true false (blanks_after name n lines)) rest
    unfolding filtered blanks_after
    scan-inside n [] rest h = refl
    scan-inside n (line ∷ lines) rest (h, hs) =
        scan-line (at_scan true false n) (at_scan true false (count_blank (kind_of name line) n))
          line (lines ++ rest) _ (line_inside first block (kind_of name line) line n h)
        ∙ ap (λ more. (if keeps_inside n (kind_of name line) then line ∷ [] else []) ++ more)
            (scan-inside (count_blank (kind_of name line) n) lines rest hs)
        ∙ if-append (keeps_inside n (kind_of name line)) line _ _

    pub scan-lost :
        (n : ℕ) (lines : List Bytes)
        → scan_lines first block name (at_scan true true n) lines
          ≡ filtered name keeps_inside n lines
    unfolding filtered scan_lines
    scan-lost n [] = refl
    scan-lost n (line ∷ lines) =
        scan-line (at_scan true true n) (at_scan true true (count_blank (kind_of name line) n)) line
          lines _ (line_lost first block (kind_of name line) line n)
        ∙ ap (λ more. (if keeps_inside n (kind_of name line) then line ∷ [] else []) ++ more)
            (scan-lost (count_blank (kind_of name line) n) lines)
        ∙ if-line (keeps_inside n (kind_of name line)) line _

    -- A line that ends the stanza has the block before it.
    pub scan-ends :
        (n : ℕ) (s : Bytes) (rest : List Bytes)
        → ends_own (kind_of name s) ≡ true
        → scan_lines first block name (at_scan true false n) (s ∷ rest)
          ≡ (if first then block else [])
            ++ scan_lines first block name (at_scan false true 0) (s ∷ rest)
    scan-ends n s rest h =
        scan-line (at_scan true false n) (at_scan false true 0) s rest _
          (line_ends first block (kind_of name s) s n h)
        ∙ append_assoc (if first then block else []) (s ∷ []) _
        ∙ ap (λ more. (if first then block else []) ++ more)
            (sym (
              scan-line (at_scan false true 0) (at_scan false true 0) s rest _
                (line_after first block (kind_of name s) s h)))

    -- The scan up to the end of the first stanzas of the interface
    pub scan-through :
        (before own rest : List Bytes) (o : Bytes)
        → HasNoOwn name before
        → starts_own (kind_of name o) ≡ true
        → StaysOwn name own
        → rewritten first block name (before ++ o ∷ (own ++ rest))
          ≡ outside name before
            ++ (inside name own
                ++ scan_lines first block name (at_scan true false (blanks_after name 0 own)) rest)
    unfolding rewritten
    scan-through before own rest o h k l =
        scan-outside false 0 before (o ∷ (own ++ rest)) h
        ∙ ap (λ more. outside name before ++ more)
            (scan-line _ (at_scan true false 0) o (own ++ rest) []
                (line_starts first block (kind_of name o) o false (blanks_after name 0 before) k)
              ∙ scan-inside 0 own rest l)
