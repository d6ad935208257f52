-- ===== src/Storage/Postgres/Samples.antt =====
-- A database for the tests that keeps the rows of actions, and has no findings.
use iamzero.Prelude.{String, ◌==◌, List, [], ◌∷◌, ◌++◌, map, select}
use iamzero.Prelude.Outcome.{ok, err, Error, plain, Exec}
use iamzero.Recommendations.{AwsAction}
use iamzero.Storage.Postgres.{PgDb, DbAction}

abbrev pub no_rows : Error
no_rows = plain "sql: no rows in result set"

abbrev pub bare : AwsAction → DbAction
bare a = record { aws_action = record a { recommendations = [] }; event_data = "{}" }

abbrev rows_of : String → List DbAction → List DbAction
rows_of id rows = select (λ r. r.aws_action.finding_id == id) rows

-- The statements select no column of the recommendations.
abbrev pub selected : List DbAction → List DbAction
selected rows = map (λ r. bare r.aws_action) rows

abbrev nothing : {A : Type 0} → Exec (List DbAction) A
nothing s = (err no_rows, s)

abbrev done : Exec (List DbAction) (Unit {0})
done s = (ok tt, s)

abbrev pub sample_pg : PgDb (List DbAction)
sample_pg = record {
  select_findings = λ s. (ok [], s);
  select_findings_of_status = λ status s. (ok [], s);
  get_finding = λ id. nothing;
  get_finding_of_role = λ role status. nothing;
  insert_finding = λ f. done;
  select_actions = λ s. (ok [], s);
  get_action = λ id. nothing;
  select_actions_of = λ id s. (ok (selected (rows_of id s)), s);
  select_enabled_actions_of =
      λ id s. (ok (selected (select (λ r. r.aws_action.enabled) (rows_of id s))), s);
  insert_action = λ a s. (ok tt, s ++ bare a ∷ []);
  update_action_status = λ status id. done;
  update_action_row = λ a. done;
  insert_event = λ e text. done;
  update_event_row = λ e text. done;
  select_events_of = λ id s. (ok [], s);
  get_event = λ id. nothing;
}
