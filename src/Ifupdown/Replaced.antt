-- ===== src/Ifupdown/Replaced.antt =====
-- What Save of ifupdown.go keeps of an existing file, where it puts the block, and what it loses.
use go_network_configurator.Prelude.{
  ℕ, ◌≡◌, sym, ◌∙◌, ap, Bool, true, false, List, [], ◌∷◌, ◌++◌, append-nil, if◌then◌else◌, Bytes,
}
use go_network_configurator.Ifupdown.Rewrite.{kind_of, scan_lines, rewritten}
use go_network_configurator.Ifupdown.Lines.{
  starts_own, ends_own, filtered, outside, inside, HasNoOwn, StaysOwn, at_scan, blanks_after,
  line_starts,
}
use go_network_configurator.Ifupdown.Scanned.{
  scan-line, scan-outside, scan-lost, scan-ends, scan-through,
}

scan-second :
    (first : Bool) (block : List Bytes) (name : Bytes) (n : ℕ) (rest : List Bytes) (o : Bytes)
    → starts_own (kind_of name o) ≡ true
    → scan_lines first block name (at_scan false true n) (o ∷ rest) ≡ inside name rest
scan-second first block name n rest o h =
    scan-line first block name (at_scan false true n) (at_scan true true 0) o rest []
      (line_starts first block (kind_of name o) o true n h)
    ∙ scan-lost first block name 0 rest

-- What follows is the end of the file or a line that ends a stanza of the interface.
abbrev pub Follows : Bytes → List Bytes → Type 0
Follows name [] = Unit {0}
Follows name (s ∷ lines) = ends_own (kind_of name s) ≡ true

-- The block is written in the first file, and in every file that ends in the stanza.
abbrev pub placed : Bool → List Bytes → List Bytes → List Bytes
placed first block [] = block
placed first block (s ∷ lines) = if first then block else []

scan-after :
    (first : Bool) (block : List Bytes) (name : Bytes) (n : ℕ) (after : List Bytes)
    → Follows name after
    → HasNoOwn name after
    → scan_lines first block name (at_scan true false n) after
      ≡ placed first block after ++ outside name after
unfolding scan_lines filtered
scan-after first block name n [] h k = sym (append-nil block)
scan-after first block name n (s ∷ after) h k =
    scan-ends first block name n s after h
    ∙ ap (λ more. (if first then block else []) ++ more)
        (ap (scan_lines first block name (at_scan false true 0)) (sym (append-nil (s ∷ after)))
          ∙ scan-outside first block name true 0 (s ∷ after) [] k
          ∙ append-nil (outside name (s ∷ after)))

-- Of a file whose stanzas of the interface stand together (`o` and `own`), the lines before and
-- after them stay, less repeated blank lines, and so do their comments. The block takes their
-- place in the first file. In another file it does so too if nothing follows them.
pub stanzas_replaced :
    (first : Bool) (block : List Bytes) (name : Bytes) (before own after : List Bytes) (o : Bytes)
    → HasNoOwn name before
    → starts_own (kind_of name o) ≡ true
    → StaysOwn name own
    → Follows name after
    → HasNoOwn name after
    → rewritten first block name (before ++ o ∷ (own ++ after))
      ≡ outside name before ++ (inside name own ++ (placed first block after ++ outside name after))
stanzas_replaced first block name before own after o h k l m n =
    scan-through first block name before own after o h k l
    ∙ ap (λ more. outside name before ++ (inside name own ++ more))
        (scan-after first block name (blanks_after name 0 own) after m n)

-- A file without a stanza of the interface stays as it is, less repeated blank lines, and the block
-- is added at its end, whether it is the first file or not.
pub added_at_the_end :
    (first : Bool) (block : List Bytes) (name : Bytes) (lines : List Bytes)
    → HasNoOwn name lines
    → rewritten first block name lines ≡ outside name lines ++ block
unfolding rewritten scan_lines
added_at_the_end first block name lines h =
    ap (rewritten first block name) (sym (append-nil lines))
    ∙ scan-outside first block name false 0 lines [] h

-- Where a stanza of the interface (`o'`) comes after a line that has ended its first stanzas (`s`),
-- what follows it is lost: of all lines to the end of the file only comments, blank lines, `auto`
-- lines and stanza lines without a name stay, whichever interface they are for.
pub lost_after_second_group :
    (first : Bool) (block : List Bytes) (name : Bytes) (before own middle rest : List Bytes)
    (o s o' : Bytes)
    → HasNoOwn name before
    → starts_own (kind_of name o) ≡ true
    → StaysOwn name own
    → ends_own (kind_of name s) ≡ true
    → HasNoOwn name (s ∷ middle)
    → starts_own (kind_of name o') ≡ true
    → rewritten first block name (before ++ o ∷ (own ++ ((s ∷ middle) ++ o' ∷ rest)))
      ≡ outside name before
        ++ (inside name own
            ++ ((if first then block else []) ++ (outside name (s ∷ middle) ++ inside name rest)))
lost_after_second_group first block name before own middle rest o s o' h k l m n p =
    scan-through first block name before own ((s ∷ middle) ++ o' ∷ rest) o h k l
    ∙ ap (λ more. outside name before ++ (inside name own ++ more))
        (scan-ends first block name (blanks_after name 0 own) s (middle ++ o' ∷ rest) m
          ∙ ap (λ more. (if first then block else []) ++ more)
              (scan-outside first block name true 0 (s ∷ middle) (o' ∷ rest) n
                ∙ ap (λ more. outside name (s ∷ middle) ++ more)
                    (scan-second first block name _ rest o' p)))
