-- ===== src/Storage/Postgres/Tests.antt =====
-- The document of the sample finding over the sample database.
use iamzero.Prelude.{String, true, ◌≡◌, refl, List, [], ◌∷◌, All}
use iamzero.Prelude.Outcome.{Outcome, ok}
use iamzero.Prelude.Digits.{decimal}
use iamzero.Prelude.Ensures.{Ensures}
use iamzero.Recommendations.{AwsData, AwsAction, Finding}
use iamzero.Recommendations.Findings.{recalculate_document}
use iamzero.Storage.Postgres.{DbAction, pg_list_for_policy}
use iamzero.Storage.Postgres.Empty.{WithoutRecommendations, recalculate_document-list_for_policy}
use iamzero.Storage.Postgres.Samples.{sample_pg, selected, bare}
use iamzero.Storage.Postgres.Connection.{PostgresStorage, psql_info_string, connection_string}
use iamzero.Samples.{event, action, finding}

abbrev written_as : AwsData → Outcome String
written_as payload = ok "{}"

abbrev read_as : String → Outcome AwsData
read_as text = ok event.payload

selected-bare : (rows : List DbAction) → All WithoutRecommendations (selected rows)
selected-bare [] = tt
selected-bare (r ∷ rows) = (refl, selected-bare rows)

sample_rows : Ensures (All WithoutRecommendations) (sample_pg.select_actions_of "finding")
sample_rows = record { in_state = λ s. selected-bare _ }

abbrev listed : List AwsAction
listed = (bare action).aws_action ∷ []

recalculate_document-list_for_policy_example :
    (g : Finding) × (recalculate_document 5 listed finding ≡ ok g)
    × (g.document.statement ≡ [])
    × (g.event_count ≡ 1)
unfolding pg_list_for_policy
recalculate_document-list_for_policy_example =
    recalculate_document-list_for_policy sample_pg written_as read_as "finding" (bare action ∷ [])
      (bare action ∷ []) listed 5 finding sample_rows refl

-- The settings of a user without a password.
abbrev settings : PostgresStorage
settings = record {
  host = "db";
  port = 5432;
  database = "iamzero";
  user = "me";
  password = "";
  ssl_mode = "disable";
  auto_run_migrations = true;
}

settings_info :
    psql_info_string settings ≡ "host=db port=5432 user=me password= dbname=iamzero sslmode=disable"
unfolding psql_info_string decimal
settings_info = refl

settings_url : connection_string settings ≡ "postgres://me:@db:5432/iamzero?sslmode=disable"
unfolding connection_string decimal
settings_url = refl
