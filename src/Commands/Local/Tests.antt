-- ===== src/Commands/Local/Tests.antt =====
-- The command over a disk with one file or none.
use iamzero.Prelude.{
  String, ◌≡◌, refl, sym, ap, ◌∙◌, ◌&&◌, Option, none, some, ◌==◌, eq_refl, eq_iff, arith,
  if◌then◌else◌,
}
use iamzero.Prelude.Text.{◌<>◌}
use iamzero.Prelude.Outcome.{Outcome, ok, err, plain, Exec, pure}
use iamzero.Tokens.{Token}
use iamzero.Commands.Local.{
  Stat, exists, not_exists, Ini, Services, LocalCommand, write_config, exec_local,
}
use iamzero.Commands.Local.ConfigFile.{KeepsFiles, Configured, write_config-update}

abbrev File : Type 0
File = String → String → String

abbrev Disk : Type 0
Disk = Option File

abbrev load_file : Disk → Outcome File × Disk
load_file none = (err (plain "no such file"), none)
load_file (some cfg) = (ok cfg, some cfg)

abbrev stat_file : Disk → Stat
stat_file none = not_exists (plain "no such file")
stat_file (some cfg) = exists

abbrev ini : Ini File Disk
ini = record {
  empty = λ section key. "";
  value = λ section key cfg. cfg section key;
  set_value = λ section key v cfg s k. if section == s && key == k then v else cfg s k;
  load = λ file x. load_file x;
  save_to = λ cfg file x. (ok tt, some cfg);
  stat = λ file x. stat_file x;
}

keeps : KeepsFiles ini
keeps = record {
  value-set_value = λ section key v cfg. ground (arith, eq_refl section, eq_refl key);
  value-set_value_other = λ section key other v cfg ne. ground (arith, eq_iff key other, ne);
  load-save_to = λ file cfg x x' e. (
    ap (λ r. load_file r.1) (sym e) ∙ ap (λ d. (ok cfg, d)) (ap (λ r. r.1) e),
    ap (λ r. stat_file r.1) (sym e),
  );
}

abbrev token : String → Token
token id = record { id = id; name = "Local token" }

abbrev write : String → Exec Disk (Unit {0})
write id =
    write_config ini ".iamzero.ini" (token id) "http://localhost:14321" "http://localhost:13991"

abbrev old_config : File
old_config section key = "http://localhost:14321"

write_config-update_example :
    Configured ini ".iamzero.ini"
      (token "b")
      "http://localhost:13991"
      (write "b" (some old_config)).1
unfolding write_config
write_config-update_example =
    write_config-update ini keeps ".iamzero.ini" (token "b") "http://localhost:14321"
      "http://localhost:13991" old_config (some old_config) (write "b" (some old_config)).1 refl
      refl refl

abbrev services : Services Disk
services = record {
  build_logger = ok tt;
  user_home_dir = ok "/home/dev";
  join_path = λ home file. home <> ("/" <> file);
  port_of = λ host. if host == "0.0.0.0:13991" then "13991" else "14321";
  create_token = λ name. pure (token "a");
  start_program = λ args. λ x. (err (plain "executable file not found"), x);
  open_bolt_db = pure tt;
  start_collector = pure tt;
  start_console = pure tt;
}

abbrev command : LocalCommand
command = record { console_host = "0.0.0.0:14321"; collector_host = "0.0.0.0:13991" }

-- A browser that cannot be started does not stop the command.
started : (exec_local ini services "linux" command (some old_config)).0 ≡ ok tt
unfolding exec_local
started = refl

no_file : exec_local ini services "linux" command none ≡ (err (plain "no such file"), none)
unfolding exec_local
no_file = refl
