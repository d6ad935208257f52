-- ===== src/Commands/Local.antt =====
-- Exec of cmd/cli/commands/local.go, up to the wait for a signal, and openBrowser.  The state X is
-- the disk with the store of tokens; package ini, os and net, the browser and the servers stand
-- outside.  What is logged is left out.
pub mod ConfigFile
mod Tests
use iamzero.Prelude.{String, List, [], ◌∷◌, ◌==◌, if◌then◌else◌}
use iamzero.Prelude.Text.{◌<>◌}
use iamzero.Prelude.Outcome.{
  Outcome, ok, err, panic, Error, plain, Exec, ◌>>=◌, ◌>>◌, pure, lift, wrapping,
}
use iamzero.Tokens.{Token}

-- What os.Stat says of a file.
pub data Stat : Type 0 where
  exists : Stat
  not_exists stat_error : Error → Stat

-- A configuration file of package ini, by sections and keys.
pub record Ini (F X : Type 0) : Type 0 where
  pub empty : F
  pub value : String → String → F → String
  pub set_value : String → String → String → F → F
  pub load : String → Exec X F
  pub save_to : F → String → Exec X (Unit {0})
  pub stat : String → X → Stat

pub record LocalCommand : Type 0 where
  pub console_host : String
  pub collector_host : String

-- What else Exec calls: `port_of` is net.SplitHostPort, "" where the address is malformed, and
-- `build_logger` the log level and the logger.
pub record Services (X : Type 0) : Type 0 where
  pub build_logger : Outcome (Unit {0})
  pub user_home_dir : Outcome String
  pub join_path : String → String → String
  pub port_of : String → String
  pub create_token : String → Exec X Token
  pub start_program : List String → Exec X (Unit {0})
  pub open_bolt_db : Exec X (Unit {0})
  pub start_collector : Exec X (Unit {0})
  pub start_console : Exec X (Unit {0})

module _ {F X : Type 0} (ini : Ini F X) where
  -- The collector's URL replaces another one.
  with_url : String → F → F
  with_url collector_url cfg =
      if ini.value "iamzero" "url" cfg == collector_url
      then cfg
      else ini.set_value "iamzero" "url" collector_url cfg

  update_config : String → Token → String → Exec X (Unit {0})
  unfolding with_url
  update_config file token collector_url = ini.load file >>= λ cfg_file.
      ini.save_to (with_url collector_url (ini.set_value "iamzero" "token" token.id cfg_file)) file

  new_config : String → Token → String → Exec X (Unit {0})
  new_config file token url =
      ini.save_to
        (ini.set_value "iamzero" "url" url (ini.set_value "iamzero" "token" token.id ini.empty))
        file

  -- Where there is no file, the error of Stat, which is not nil, is returned before one is made.
  config_by_stat : Stat → String → Token → String → String → Exec X (Unit {0})
  unfolding update_config new_config
  config_by_stat exists file token url collector_url = update_config file token collector_url
  config_by_stat (not_exists e) file token url collector_url =
      let returned : Exec X (Unit {0}) = lift (err e) in returned >> new_config file token url
  config_by_stat (stat_error e) file token url collector_url = lift (err e)

  -- The configuration file for the token, over the URLs of the console and of the collector.
  unfoldable pub write_config : String → Token → String → String → Exec X (Unit {0})
  unfolding config_by_stat
  write_config file token url collector_url x =
      config_by_stat (ini.stat file x) file token url collector_url x

  -- `goos` is runtime.GOOS.
  open_browser : Services X → String → String → Exec X (Unit {0})
  open_browser services goos url =
      if goos == "linux"
      then services.start_program ("xdg-open" ∷ url ∷ [])
      else if goos == "windows"
      then services.start_program ("rundll32" ∷ "url.dll,FileProtocolHandler" ∷ url ∷ [])
      else if goos == "darwin"
      then services.start_program ("open" ∷ url ∷ [])
      else lift (err (plain "unsupported platform"))

  -- An error of the browser is only logged.
  ignored : Outcome (Unit {0}) → Outcome (Unit {0})
  ignored (ok u) = ok u
  ignored (err e) = ok tt
  ignored (panic p) = panic p

  try_browser : Services X → String → String → Exec X (Unit {0})
  unfolding open_browser ignored
  try_browser services goos url x = let r = open_browser services goos url x in (ignored r.0, r.1)

  start_servers : Services X → Exec X (Unit {0})
  start_servers services =
      wrapping "error opening local database, ensure that you are not running 'iamzero local'"
        services.open_bolt_db
      >> services.start_collector
      >> services.start_console

  local_url : Services X → String → String
  local_url services host = "http://localhost:" <> services.port_of host

  unfoldable pub exec_local : Services X → String → LocalCommand → Exec X (Unit {0})
  unfolding local_url write_config try_browser start_servers
  exec_local services goos c =
      lift services.build_logger
      >> (lift services.user_home_dir >>= λ home. services.create_token "Local token" >>= λ token.
          write_config (services.join_path home ".iamzero.ini") token
            (local_url services c.console_host) (local_url services c.collector_host)
          >> try_browser services goos (local_url services c.console_host)
          >> start_servers services)
