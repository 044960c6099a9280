-- ===== src/Tests/Files.antt =====
-- Files and the resolver at concrete values.
use go_network_configurator.Prelude.{
  ◌≡◌, refl, true, false, List, [], ◌∷◌, Option, none, some, Bytes, codes,
}
use go_network_configurator.Prelude.Exec.{ok, err, external, pure, raise, ◌>>=◌}
use go_network_configurator.Files.{
  Os, file_move, after_rename, file_move_copy, file_copy, fill_copy,
}
use go_network_configurator.Files.Safety.{IsElsewhere, file_move_failed}
use go_network_configurator.Linux.Dns.{
  Resolver, kept_lines, resolv_lines, ip_strings, apply_live_dns,
}
use go_network_configurator.Linux.Dns.Rewrite.{servers_in, resolv_lines_lem}
use go_network_configurator.Linux.Dns.Untouched.{apply_live_dns-keeps}

-- The state is what the source and the destination hold. The destination is on another device,
-- and its contents cannot be written.
abbrev TwoFiles : Type 0
TwoFiles = Option Bytes × Option Bytes

abbrev full_disk : Os TwoFiles
full_disk = record {
  rename = λ source destination. raise (external 18);
  open_source = λ source w. ok tt;
  create = λ destination w. (ok tt, (w.0, some []));
  copy = λ destination source. raise (external 28);
  mode = λ source w. ok 0o644;
  chmod = λ destination mode. pure tt;
  remove = λ path w. (ok tt, (w.0, none));
}

abbrev moved : Bytes
moved = codes "/etc/resolv.conf.tmp"

abbrev goal : Bytes
goal = codes "/etc/resolv.conf"

goal-IsElsewhere : IsElsewhere (λ (w : TwoFiles). w.0) full_disk moved goal
goal-IsElsewhere = record {
  rename_failed = λ w e h. refl;
  create = record { at = λ w. refl };
  copy = record { at = λ w. refl };
  chmod = λ mode. record { at = λ w. refl };
  remove = record { at = λ w. refl };
}

move_fails : (file_move full_disk moved goal (some [], none)).0 ≡ err (external 28)
unfolding file_move after_rename file_move_copy file_copy fill_copy ◌>>=◌
move_fails = refl

file_move_failed_example : (file_move full_disk moved goal (some [], none)).1.0 ≡ some []
file_move_failed_example =
    file_move_failed goal-IsElsewhere (some [], none) (external 28) move_fails

abbrev old_lines : List Bytes
old_lines = codes "options edns0" ∷ codes "nameserver 10.0.0.9" ∷ []

abbrev new_servers : List Bytes
new_servers = codes "10.0.0.2" ∷ codes "10.0.0.3" ∷ []

resolv_lines_lem_example :
    (servers_in (resolv_lines (kept_lines old_lines) new_servers []) ≡ new_servers)
    × (kept_lines (resolv_lines (kept_lines old_lines) new_servers []) ≡ kept_lines old_lines)
resolv_lines_lem_example = resolv_lines_lem old_lines new_servers [] (refl, (refl, tt))

-- The state is what /etc/resolv.conf holds; resolvectl is there, and fails.
abbrev resolver : Resolver Bytes
resolver = record {
  ip_string = λ ip. codes "10.0.0.2";
  on_path = λ name w. true;
  run = λ args. raise (external 1);
  lstat = λ path w. ok (false, 0o644);
  read_file = λ path w. ok w;
  write_file = λ path text perm. pure tt;
  files = record {
    rename = λ source destination w. (ok tt, []);
    open_source = λ source w. ok tt;
    create = λ destination. pure tt;
    copy = λ destination source. pure tt;
    mode = λ source w. ok 0;
    chmod = λ destination mode. pure tt;
    remove = λ path. pure tt;
  };
}

apply_live_dns-keeps_example :
    apply_live_dns resolver
      (codes "eth0")
      ([] ∷ [])
      (codes "example.org" ∷ [])
      (codes "options edns0")
    ≡ codes "options edns0"
unfolding ip_strings
apply_live_dns-keeps_example =
    apply_live_dns-keeps {view = λ w. w} resolver (λ args. record { at = λ w. refl }) (codes "eth0")
      ([] ∷ []) (codes "example.org" ∷ []) (codes "options edns0") refl
