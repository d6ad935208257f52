-- ===== src/Config/Tests.antt =====
-- Runs of the parser of environment files.
use iamzero.Prelude.{String, ◌≡◌, refl, List, [], ◌∷◌, some, ◌++◌}
use iamzero.Prelude.Outcome.{ok, err, plain, Exec}
use iamzero.Config.{parse_line, env_file_parser}
use iamzero.Config.Settings

-- A lowercasing for the names below, which are in small letters already.
abbrev same : String → String
same s = s

abbrev remember : String → String → Exec (List (String × String)) (Unit {0})
remember k v s = (ok tt, s ++ (k, v) ∷ [])

abbrev file : List String
file = "# a comment" ∷ "" ∷ "iamzero_log_level = debug # loud" ∷ "port=80" ∷ "what" ∷ "a=b" ∷ []

read_file :
    env_file_parser same "iamzero" remember file []
    ≡ (err (plain "invalid .env file"), ("log-level ", "debug") ∷ ("port", "80") ∷ [])
unfolding env_file_parser
read_file = refl

env_file_parser-set_all_example :
    (rs : List Settings.Reading) × Settings.AllMean same "iamzero" remember file rs
    × (env_file_parser same "iamzero" remember file []
        ≡ Settings.set_all remember (Settings.settings rs) [])
env_file_parser-set_all_example = Settings.env_file_parser-set_all same "iamzero" remember file []

value_with_equals :
    parse_line same "iamzero" "  iamzero_db_url=x=y #z" ≡ ok (some ("db-url", "x=y"))
unfolding parse_line
value_with_equals = refl
