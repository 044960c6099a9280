-- ===== src/Linux/Dns.antt =====
-- dns_linux.go, and SetDNS of configurator_linux.go: the running resolver.
pub mod Rewrite
pub mod Untouched
use go_network_configurator.Prelude.{
  ℕ, Bool, true, false, not, ◌&&◌, ◌||◌, List, [], ◌∷◌, ◌++◌, if◌then◌else◌, Bytes, codes, bytes_eq,
  ◌==◌,
}
use go_network_configurator.Prelude.Exec.{
  Exec, Result, ok, err, Error, pure, raise, reads, caught, on_error, attempt, ◌>>=◌, ◌>>◌,
}
use go_network_configurator.Net.{Ip, is_nil}
use go_network_configurator.InitState.{fields}
use go_network_configurator.Files.{Os, file_move}
use go_network_configurator.Backend.{apply_iface_dns}
use go_network_configurator.Linux.{LinuxConfigurator}

-- The calls of packages os and os/exec that the resolver takes, and `ip.String()`
pub record Resolver (W : Type 0) : Type 0 where
  pub ip_string : Ip → Bytes
  pub on_path : Bytes → W → Bool
  pub run : List Bytes → Exec W (Unit {0})
  -- `os.Lstat`: whether it is a symbolic link, and its permissions
  pub lstat : Bytes → W → Result (Bool × ℕ)
  pub read_file : Bytes → W → Result Bytes
  pub write_file : Bytes → Bytes → ℕ → Exec W (Unit {0})
  pub files : Os W

-- resolvectlBin and resolvConf
abbrev pub resolvectl_bin : Bytes
resolvectl_bin = codes "resolvectl"

abbrev pub resolv_conf : Bytes
resolv_conf = codes "/etc/resolv.conf"

-- ipStrings
unfoldable pub ip_strings : (Ip → Bytes) → List Ip → List Bytes
ip_strings show [] = []
ip_strings show (ip ∷ ips) =
    let rest = ip_strings show ips in if is_nil ip then rest else show ip ∷ rest

-- A list without entries is passed on as one empty text, which clears the field.
abbrev pub or_empty : List Bytes → List Bytes
or_empty [] = [] ∷ []
or_empty (x ∷ xs) = x ∷ xs

abbrev pub has_none : List Bytes → Bool
has_none [] = true
has_none (x ∷ xs) = false

-- The first field is one that the rewrite replaces.
abbrev pub is_replaced : List Bytes → Bool
is_replaced [] = false
is_replaced (f ∷ fs) = bytes_eq f (codes "nameserver") || bytes_eq f (codes "search")

-- The loop over the lines of the file
unfoldable pub kept_lines : List Bytes → List Bytes
kept_lines [] = []
kept_lines (line ∷ lines) =
    let rest = kept_lines lines in if is_replaced (fields line) then rest else line ∷ rest

-- `strings.Join(…, " ")`
unfoldable pub joined : List Bytes → Bytes
joined [] = []
joined (x ∷ []) = x
joined (x ∷ y ∷ ys) = let rest = joined (y ∷ ys) in x ++ 32 ∷ rest

abbrev pub search_lines : List Bytes → List Bytes
search_lines [] = []
search_lines (d ∷ ds) = (codes "search " ++ joined (d ∷ ds)) ∷ []

abbrev pub server_lines : List Bytes → List Bytes
server_lines [] = []
server_lines (s ∷ servers) = (codes "nameserver " ++ s) ∷ server_lines servers

-- The lines of the new file
unfoldable pub resolv_lines : List Bytes → List Bytes → List Bytes → List Bytes
unfolding joined
resolv_lines kept servers domains = kept ++ search_lines domains ++ server_lines servers

-- Each line with a line feed behind it
unfoldable pub text_of : List Bytes → Bytes
text_of [] = []
text_of (line ∷ lines) = line ++ 10 ∷ text_of lines

-- `bufio.ScanLines`, with the line that is read: a carriage return at its end goes too. No line is
-- longer than the scanner's buffer.
abbrev pub drop_cr : Bytes → Bytes
drop_cr [] = []
drop_cr (c ∷ []) = if c == 13 then [] else c ∷ []
drop_cr (c ∷ d ∷ s) = c ∷ drop_cr (d ∷ s)

unfoldable pub lines_from : Bytes → Bytes → List Bytes
lines_from [] [] = []
lines_from [] (c ∷ line) = drop_cr (c ∷ line) ∷ []
lines_from (c ∷ s) line =
    if c == 10 then drop_cr line ∷ lines_from s [] else lines_from s (line ++ c ∷ [])

module _ {W : Type 0} (resolver : Resolver W) where
  -- applyResolvectlDNS
  unfoldable pub apply_resolvectl_dns : Bytes → List Bytes → List Bytes → W → Bool × W
  apply_resolvectl_dns iface servers domains w =
      if has_none servers && has_none domains
      then (let (r, w1) = resolver.run (resolvectl_bin ∷ codes "revert" ∷ iface ∷ []) w in
          (elim r [ ok u ↦ true | err e ↦ false ], w1))
      else (let (r1, w1) =
            resolver.run (resolvectl_bin ∷ codes "dns" ∷ iface ∷ or_empty servers) w in
          let (r2, w2) =
            resolver.run (resolvectl_bin ∷ codes "domain" ∷ iface ∷ or_empty domains) w1 in
          (elim r1 [ ok u ↦ elim r2 [ ok u2 ↦ true | err e ↦ false ] | err e ↦ false ], w2))

  abbrev pub resolv_tmp : Bytes
  resolv_tmp = resolv_conf ++ codes ".tmp"

  -- writeResolvConf
  unfoldable pub write_resolv_conf : List Bytes → List Bytes → Exec W (Unit {0})
  write_resolv_conf servers domains = do
    (symlink, perm) ← reads (resolver.lstat resolv_conf)
    if symlink then pure tt else do
      data_ ← reads (resolver.read_file resolv_conf)
      resolver.write_file resolv_tmp
          (text_of (resolv_lines (kept_lines (lines_from data_ [])) servers domains)) perm
      on_error (attempt (resolver.files.remove resolv_tmp))
          (file_move resolver.files resolv_tmp resolv_conf)

  -- The fallback of applyLiveDNS
  unfoldable pub rewrite_unless_empty : List Bytes → List Bytes → W → W
  rewrite_unless_empty servers domains w =
      if has_none servers then w else attempt (write_resolv_conf servers domains) w

  -- applyLiveDNS
  unfoldable pub apply_live_dns : Bytes → List Ip → List Bytes → W → W
  unfolding ip_strings
  apply_live_dns iface servers domains w =
      let server_strs = ip_strings resolver.ip_string servers in
      if resolver.on_path resolvectl_bin w
      then (let (applied, w') = apply_resolvectl_dns iface server_strs domains w in
          if applied then w' else rewrite_unless_empty server_strs domains w')
      else rewrite_unless_empty server_strs domains w

  -- SetDNS
  unfoldable pub set_dns : LinuxConfigurator W → Bytes → List Ip → List Bytes → Exec W (Unit {0})
  set_dns c iface servers domains w = (
    ok tt,
    apply_live_dns iface servers domains (apply_iface_dns c.iface_backends iface servers domains w),
  )
