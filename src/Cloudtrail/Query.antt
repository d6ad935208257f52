-- ===== src/Cloudtrail/Query.antt =====
-- GetActionsForRole of pkg/cloudtrail/cloudtrail.go, over the calls of Athena.  The answers to
-- GetQueryExecution are a list, one for each round of the loop; where they run out, the loop goes on.
-- `order` is the order in which GetEvents ranges over its map.
pub mod Waiting
mod Tests
use iamzero.Prelude.{ℕ, zero, suc, String, Option, none, some, List, [], ◌∷◌}
use iamzero.Prelude.Text.{◌<>◌}
use iamzero.Prelude.Outcome.{
  Outcome, ok, err, panic, plain, nil_pointer, index_out_of_range, and_then, Exec, ◌>>=◌, ◌>>◌,
  pure, lift,
}
use iamzero.Policies.{CdkResource}
use iamzero.Recommendations.{AwsEvent}
use iamzero.Storage.{Storage}
use iamzero.Runtime.{Env, World}
use iamzero.Detective.{analyse_event}
use iamzero.Cloudtrail.{LogEntry, Events, read, get_events}

-- The states that the loop tells apart.
pub data QueryState : Type 0 where
  running queued succeeded other : QueryState

pub record QueryStatus : Type 0 where
  pub state : QueryState
  pub state_change_reason : Option String

pub record Athena : Type 0 where
  pub load_default_config : Outcome (Unit {0})
  pub start_query_execution : String → String → Outcome String
  pub get_query_executions : String → List (Outcome QueryStatus)
  pub get_query_results : String → Outcome (List (List (Option String)))

pub record CloudTrailAuditor : Type 0 where
  pub athena_cloud_trail_bucket : String
  pub athena_output_location : String

pub query_for : String → String → String → String
query_for bucket account role =
    "SELECT useridentity.type, useridentity.principalid, useridentity.arn, useridentity.accountid, useridentity.invokedby, useridentity.sessioncontext.sessionissuer, eventtime, eventsource, eventname, errorcode, errormessage, requestparameters\n\tFROM "
    <> (bucket
        <> ("\n\tWHERE useridentity.arn LIKE 'arn:aws:sts::"
            <> (account
                <> (":assumed-role/"
                    <> (role
                        <> ("/%'\n\t\t\tOR useridentity.arn = 'arn:aws:iam::"
                            <> (account <> (":role/" <> (role <> "'\n")))))))))

-- The error of a query that ended otherwise, whose reason is dereferenced.
query_failed : Option String → Outcome (Unit {0})
query_failed none = panic nil_pointer
query_failed (some reason) = err (plain ("error while querying athena: " <> reason))

-- One round of the loop, and what the later rounds give where the query goes on.
loop_round : QueryState → Option String → Option (Outcome (Unit {0})) → Option (Outcome (Unit {0}))
unfolding query_failed
loop_round running reason later = later
loop_round queued reason later = later
loop_round succeeded reason later = some (ok tt)
loop_round other reason later = some (query_failed reason)

-- None while the query runs.
unfoldable pub wait_for_query : List (Outcome QueryStatus) → Option (Outcome (Unit {0}))
unfolding loop_round
wait_for_query [] = none
wait_for_query (ok q ∷ later) = loop_round q.state q.state_change_reason (wait_for_query later)
wait_for_query (err e ∷ later) = some (err e)
wait_for_query (panic p ∷ later) = some (panic p)

-- r.Data[n].VarCharValue
column : ℕ → List (Option String) → Outcome (Option String)
column n [] = panic index_out_of_range
column zero (d ∷ ds) = ok d
column (suc n) (d ∷ ds) = column n ds

-- Data[11] is the last column that is read.
unfoldable pub entry_of_row : List (Option String) → Outcome LogEntry
unfolding column
entry_of_row cells = and_then (column 1 cells) λ principal_id. and_then (column 2 cells) λ arn.
    and_then (column 3 cells) λ account_id. and_then (column 6 cells) λ event_time.
      and_then (column 7 cells) λ event_source. and_then (column 8 cells) λ event_name.
        and_then (column 11 cells) λ request_parameters. ok (record {
          user_identity = record {
            principal_id = principal_id;
            arn = arn;
            account_id = account_id;
          };
          event_time = event_time;
          event_source = event_source;
          event_name = event_name;
          request_parameters = request_parameters;
        })

module _ (unmarshal : String → Outcome (List (String × String))) (hash : AwsEvent → Outcome ℕ)
    (uuid : ℕ → String) where
  -- The rows behind the first; row number `n` gets the n-th identifier.
  unfoldable pub read_rows : ℕ → List (List (Option String)) → Events → Outcome Events
  unfolding entry_of_row read
  read_rows n [] events = ok events
  read_rows n (r ∷ rows) events = and_then (entry_of_row r) λ entry.
      and_then (read unmarshal hash (uuid n) entry events) λ events'. read_rows (suc n) rows events'

  -- The first row holds the names of the columns.
  events_of_rows : List (List (Option String)) → Outcome Events
  unfolding read_rows
  events_of_rows [] = ok []
  events_of_rows (names ∷ rows) = read_rows 0 rows []

  module _ {S : Type 0} (env : Env) (storage : Storage S) (cdk : List CdkResource) where
    pub analyse_events : List AwsEvent → Exec (World S) (Unit {0})
    unfolding analyse_event
    analyse_events [] = pure tt
    analyse_events (e ∷ events) = analyse_event env storage cdk e >> analyse_events events

    -- What follows the query.
    analyse_results :
        (List AwsEvent → List AwsEvent)
        → Outcome (List (List (Option String)))
        → Exec (World S) (Unit {0})
    unfolding events_of_rows analyse_events
    analyse_results order res =
        lift (and_then res events_of_rows) >>= λ events. analyse_events (order (get_events events))

    after_query :
        (List AwsEvent → List AwsEvent)
        → Option (Outcome (Unit {0}))
        → Outcome (List (List (Option String)))
        → World S
        → Option (Outcome (Unit {0}) × World S)
    unfolding analyse_results
    after_query order none res w = none
    after_query order (some r) res w = some ((lift r >> analyse_results order res) w)

    after_start :
        (List AwsEvent → List AwsEvent)
        → Athena
        → Outcome String
        → World S
        → Option (Outcome (Unit {0}) × World S)
    unfolding after_query wait_for_query
    after_start order athena (ok id) w =
        after_query order (wait_for_query (athena.get_query_executions id))
          (athena.get_query_results id) w
    after_start order athena (err e) w = some (err e, w)
    after_start order athena (panic p) w = some (panic p, w)

    -- None where the query has not ended yet.
    unfoldable pub get_actions_for_role :
        (List AwsEvent → List AwsEvent)
        → Athena
        → CloudTrailAuditor
        → String
        → String
        → World S
        → Option (Outcome (Unit {0}) × World S)
    unfolding after_start query_for
    get_actions_for_role order athena a account role w =
        after_start order athena
          (and_then athena.load_default_config λ u.
            athena.start_query_execution (query_for a.athena_cloud_trail_bucket account role)
              a.athena_output_location)
          w
