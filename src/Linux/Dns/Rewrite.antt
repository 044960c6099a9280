-- ===== src/Linux/Dns/Rewrite.antt =====
-- What the rewrite of /etc/resolv.conf keeps and writes.
use go_network_configurator.Prelude.{
  ◌≡◌, refl, ◌∙◌, sym, ap, true, false, List, [], ◌∷◌, ◌++◌, Option, none, some, if◌then◌else◌,
  Bytes, codes, bytes_eq, All, arith, append-nil,
}
use go_network_configurator.InitState.{fields, fields_from}
use go_network_configurator.InitState.Chkconfig.{is_word, fields_from-word}
use go_network_configurator.Linux.Dns.{
  is_replaced, kept_lines, joined, search_lines, server_lines, resolv_lines,
}

-- The server that a line names, if its first field is `nameserver`
abbrev pub server_of : List Bytes → Option Bytes
server_of (f ∷ s ∷ fs) = if bytes_eq f (codes "nameserver") then some s else none
server_of fs = none

-- The servers that the lines of a file name, in order
unfoldable pub servers_in : List Bytes → List Bytes
servers_in [] = []
servers_in (line ∷ lines) =
    let rest = servers_in lines in
    elim (server_of (fields line)) [ none ↦ rest | some s ↦ s ∷ rest ]

-- A text of at least one byte, and without spaces
abbrev pub IsServer : Bytes → Type 0
IsServer [] = ⊥
IsServer (c ∷ s) = is_word (c ∷ s) ≡ true

fields-server :
    (s : Bytes) → IsServer s → fields (codes "nameserver " ++ s) ≡ codes "nameserver" ∷ s ∷ []
unfolding fields fields_from
fields-server [] h = absurd h
fields-server (c ∷ s) h =
    ap (λ fs. codes "nameserver" ∷ fs)
      (ap (λ l. fields_from l []) (sym (append-nil (c ∷ s))) ∙ fields_from-word (c ∷ s) [] [] h)

fields-search :
    (s : Bytes) → (fs : List Bytes) × (fields (codes "search " ++ s) ≡ codes "search" ∷ fs)
unfolding fields fields_from
fields-search s = (fields_from s [], refl)

fields-nameserver :
    (s : Bytes) → (fs : List Bytes) × (fields (codes "nameserver " ++ s) ≡ codes "nameserver" ∷ fs)
unfolding fields fields_from
fields-nameserver s = (fields_from s [], refl)

kept_lines-append : (xs ys : List Bytes) → kept_lines (xs ++ ys) ≡ kept_lines xs ++ kept_lines ys
unfolding kept_lines
kept_lines-append [] ys = refl
kept_lines-append (x ∷ xs) ys = ground (arith, kept_lines-append xs ys)

kept_lines-kept_lines : (xs : List Bytes) → kept_lines (kept_lines xs) ≡ kept_lines xs
unfolding kept_lines
kept_lines-kept_lines [] = refl
kept_lines-kept_lines (x ∷ xs) = ground (arith, kept_lines-kept_lines xs)

kept_lines-server_lines : (servers : List Bytes) → kept_lines (server_lines servers) ≡ []
unfolding kept_lines bytes_eq
kept_lines-server_lines [] = refl
kept_lines-server_lines (s ∷ servers) =
    let (fs, e) = fields-nameserver s in rw e (kept_lines-server_lines servers)

kept_lines-search_lines : (domains : List Bytes) → kept_lines (search_lines domains) ≡ []
unfolding kept_lines bytes_eq
kept_lines-search_lines [] = refl
kept_lines-search_lines (d ∷ ds) = let (fs, e) = fields-search (joined (d ∷ ds)) in rw e refl

servers_in-named :
    (line : Bytes) (lines : List Bytes) (o : Option Bytes)
    → server_of (fields line) ≡ o
    → servers_in (line ∷ lines)
      ≡ (elim o [ none ↦ servers_in lines | some s ↦ s ∷ servers_in lines ])
unfolding servers_in
servers_in-named line lines o e =
    ap (λ (x : Option Bytes). elim x [ none ↦ servers_in lines | some s ↦ s ∷ servers_in lines ]) e

servers_in-append : (xs ys : List Bytes) → servers_in (xs ++ ys) ≡ servers_in xs ++ servers_in ys
unfolding servers_in
servers_in-append [] ys = refl
servers_in-append (x ∷ xs) ys = ground (arith, servers_in-append xs ys)

server_of-kept : (fs : List Bytes) → is_replaced fs ≡ false → server_of fs ≡ none
server_of-kept [] h = refl
server_of-kept (f ∷ []) h = refl
server_of-kept (f ∷ s ∷ fs) h = ground arith

servers_in-kept_lines : (xs : List Bytes) → servers_in (kept_lines xs) ≡ []
unfolding kept_lines servers_in
servers_in-kept_lines [] = refl
servers_in-kept_lines (x ∷ xs) = ground (arith, servers_in-kept_lines xs, server_of-kept (fields x))

server_of-search : (fs : List Bytes) → server_of (codes "search" ∷ fs) ≡ none
unfolding bytes_eq
server_of-search [] = refl
server_of-search (f ∷ fs) = refl

servers_in-search_lines : (domains : List Bytes) → servers_in (search_lines domains) ≡ []
unfolding servers_in
servers_in-search_lines [] = refl
servers_in-search_lines (d ∷ ds) =
    let (fs, e) = fields-search (joined (d ∷ ds)) in
    servers_in-named (codes "search " ++ joined (d ∷ ds)) [] none
      (ap server_of e ∙ server_of-search fs)

servers_in-server_lines :
    (servers : List Bytes) → All IsServer servers → servers_in (server_lines servers) ≡ servers
unfolding servers_in bytes_eq
servers_in-server_lines [] h = refl
servers_in-server_lines (s ∷ servers) h =
    servers_in-named (codes "nameserver " ++ s) (server_lines servers) (some s)
      (ap server_of (fields-server s h.0))
    ∙ ap (λ l. s ∷ l) (servers_in-server_lines servers h.1)

-- Reading the lines that writeResolvConf writes: they name exactly the servers that were asked for,
-- in order, if each is a word; and what a later rewrite would keep of them is what this one kept.
pub resolv_lines_lem :
    (lines servers domains : List Bytes)
    → All IsServer servers
    → (servers_in (resolv_lines (kept_lines lines) servers domains) ≡ servers)
      × (kept_lines (resolv_lines (kept_lines lines) servers domains) ≡ kept_lines lines)
unfolding resolv_lines
resolv_lines_lem lines servers domains h =
    let kept = kept_lines lines in
    (
      servers_in-append (kept ++ search_lines domains) (server_lines servers)
          ∙ rw
              (
                servers_in-append kept (search_lines domains),
                servers_in-kept_lines lines,
                servers_in-search_lines domains,
              )
              (servers_in-server_lines servers h),
      kept_lines-append (kept ++ search_lines domains) (server_lines servers)
          ∙ rw
              (
                kept_lines-append kept (search_lines domains),
                kept_lines-kept_lines lines,
                kept_lines-search_lines domains,
                kept_lines-server_lines servers,
              )
              (append-nil (kept ++ []) ∙ append-nil kept),
    )
