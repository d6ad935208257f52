-- ===== src/Cloudtrail/Query/Tests.antt =====
-- A query that is queued, runs, and ends with the names of the columns and one row.
use iamzero.Prelude.{ℕ, String, ◌≡◌, refl, Option, none, some, List, [], ◌∷◌, All, ◌↔◌}
use iamzero.Prelude.Outcome.{Outcome, ok, err, panic, plain, index_out_of_range}
use iamzero.Recommendations.{AwsEvent}
use iamzero.Storage.Memory.{Memory, in_memory}
use iamzero.Runtime.{World}
use iamzero.Cloudtrail.{
  Events, event_of, get_events, read, put_event, try_convert_to_event, safe_string_equals, s3_event,
  dereference, parameter,
}
use iamzero.Cloudtrail.Query.{
  QueryState, QueryStatus, queued, running, succeeded, other, get_actions_for_role, Athena,
  CloudTrailAuditor, analyse_events, entry_of_row, read_rows,
}
use iamzero.Cloudtrail.Query.Waiting.{IsGoing, get_actions_for_role-waits}
use iamzero.Samples.{env, nth_id, world}

abbrev unmarshal : String → Outcome (List (String × String))
unmarshal s = ok (("bucketName", s) ∷ [])

abbrev hash : AwsEvent → Outcome ℕ
hash e = ok 7

abbrev row : List (Option String)
row =
    none
    ∷ some "p"
    ∷ some "role"
    ∷ some "1"
    ∷ none
    ∷ none
    ∷ some "t"
    ∷ some "s3.amazonaws.com"
    ∷ some "HeadObject"
    ∷ none
    ∷ none
    ∷ some "bucket"
    ∷ []

abbrev athena : Athena
athena = record {
  load_default_config = ok tt;
  start_query_execution = λ query location. ok "query";
  get_query_executions = λ id. [];
  get_query_results = λ id. ok ([] ∷ row ∷ []);
}

abbrev auditor : CloudTrailAuditor
auditor = record { athena_cloud_trail_bucket = "logs"; athena_output_location = "s3://results" }

abbrev events : Events
events = (7, event_of "a" "HeadObject" "bucket" "t" "p" "role" "1") ∷ []

short_row : entry_of_row (none ∷ some "p" ∷ []) ≡ panic index_out_of_range
unfolding entry_of_row
short_row = refl

reads : read_rows unmarshal hash nth_id 0 (row ∷ []) [] ≡ ok events
unfolding read_rows entry_of_row read put_event try_convert_to_event safe_string_equals s3_event
    dereference parameter
reads = refl

abbrev status_of : QueryState → QueryStatus
status_of state = record { state = state; state_change_reason = none }

-- The events in the reverse order of their first writes, where there are two.
abbrev turned : List AwsEvent → List AwsEvent
turned (e ∷ f ∷ []) = f ∷ e ∷ []
turned es = es

abbrev run : List (Outcome QueryStatus) → Option (Outcome (Unit {0}) × World Memory)
run replies =
    get_actions_for_role unmarshal hash nth_id env in_memory [] turned
      (record athena { get_query_executions = λ id. replies }) auditor "1" "role" world

get_actions_for_role-waits_example :
    run (ok (status_of queued) ∷ ok (status_of running) ∷ []) ≡ none
    ↔ (id : String) × (ok "query" ≡ ok id)
      × All IsGoing (ok (status_of queued) ∷ ok (status_of running) ∷ [])
get_actions_for_role-waits_example =
    get_actions_for_role-waits unmarshal hash nth_id env in_memory [] turned
      (record athena {
        get_query_executions = λ id. ok (status_of queued) ∷ ok (status_of running) ∷ [];
      })
      auditor "1" "role" world

failed :
    run (
      ok (status_of running)
      ∷ ok (record { state = other; state_change_reason = some "no bucket" })
      ∷ ok (status_of running)
      ∷ [])
    ≡ some (err (plain "error while querying athena: no bucket"), world)
unfolding get_actions_for_role
failed = refl

analysed :
    run (ok (status_of queued) ∷ ok (status_of succeeded) ∷ [])
    ≡ some (analyse_events unmarshal hash nth_id env in_memory [] (get_events events) world)
unfolding get_actions_for_role read_rows entry_of_row read put_event try_convert_to_event
    safe_string_equals s3_event dereference parameter
analysed = refl
