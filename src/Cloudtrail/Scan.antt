-- ===== src/Cloudtrail/Scan.antt =====
-- Exec of cmd/cli/commands/scan.go.  `build_logger` is the log level and the logger, and `open_db`
-- storage.OpenBoltDB.
use iamzero.Prelude.{ℕ, String, Option, some, List, ◌==◌, if◌then◌else◌}
use iamzero.Prelude.Outcome.{Outcome, ok, err, panic, plain, and_then, wrap_error}
use iamzero.Policies.{CdkResource}
use iamzero.Recommendations.{AwsEvent}
use iamzero.Storage.{Storage}
use iamzero.Runtime.{Env, World}
use iamzero.Cloudtrail.Query.{Athena, get_actions_for_role}

pub record ScanCommand : Type 0 where
  pub role_name : String
  pub athena_cloud_trail_bucket : String
  pub athena_results_location : String
  pub account : String

check_arguments : ScanCommand → Outcome (Unit {0})
check_arguments c =
    if c.role_name == ""
    then err (plain "the -role argument must be provided")
    else if c.athena_cloud_trail_bucket == ""
    then err (plain "the -cloudtrail-bucket argument must be provided")
    else if c.athena_results_location == ""
    then err (plain "the -results-location argument must be provided")
    else if c.account == ""
    then err (plain "the -account argument must be provided")
    else ok tt

module _ (unmarshal : String → Outcome (List (String × String))) (hash : AwsEvent → Outcome ℕ)
    (uuid : ℕ → String) {S : Type 0} (env : Env) (storage : Storage S) (cdk : List CdkResource)
    (order : List AwsEvent → List AwsEvent) (athena : Athena)
    (build_logger open_db : Outcome (Unit {0})) where
  -- What is checked before the query.
  prepared : ScanCommand → Outcome (Unit {0})
  unfolding check_arguments
  prepared c = and_then build_logger λ u. and_then (check_arguments c) λ v.
      wrap_error "error opening local database, ensure that you are not running 'iamzero local'"
        open_db

  scan_if : Outcome (Unit {0}) → ScanCommand → World S → Option (Outcome (Unit {0}) × World S)
  unfolding get_actions_for_role
  scan_if (ok u) c w =
      get_actions_for_role unmarshal hash uuid env storage cdk order athena
        (record {
          athena_cloud_trail_bucket = c.athena_cloud_trail_bucket;
          athena_output_location = c.athena_results_location;
        })
        c.account c.role_name w
  scan_if (err e) c w = some (err e, w)
  scan_if (panic p) c w = some (panic p, w)

  -- None while the query has not ended.
  unfoldable pub exec_scan : ScanCommand → World S → Option (Outcome (Unit {0}) × World S)
  unfolding prepared scan_if
  exec_scan c w = scan_if (prepared c) c w
