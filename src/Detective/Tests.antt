-- ===== src/Detective/Tests.antt =====
-- The analysis of the sample event, from a storage that has a finding of its role.
use iamzero.Prelude.{String, ℕ, ◌≡◌, refl, List, [], ◌∷◌, ◌++◌, All}
use iamzero.Prelude.Outcome.{Outcome, ok}
use iamzero.Arn.{get_role_or_user_name_from_arn}
use iamzero.Recommendations.{AwsEvent, AwsAction, AwsData, LeastPrivilegePolicy}
use iamzero.Recommendations.Actions.{get_selected_advisory}
use iamzero.Recommendations.Findings.Granted.{IsSelected}
use iamzero.Recommendations.Advice.{advise}
use iamzero.Recommendations.Advice.Grants.{advise-AllFollow}
use iamzero.Storage.Memory.{Memory, in_memory}
use iamzero.Audit.Resources.{get_physical_id_from_arn_resource}
use iamzero.Runtime.{World}
use iamzero.Detective.{with_real_role, analyse_event}
use iamzero.Storage.Postgres.{DbAction, postgres}
use iamzero.Storage.Postgres.Samples.{sample_pg, no_rows}
use iamzero.Detective.OverPostgres.{Rejected, analyse_event-Rejected}
use iamzero.Detective.Recorded.{Analysed, analyse_event-Analysed}
use iamzero.Detective.Repeated.{IsAnalysable, analyse_event-twice}
use iamzero.Samples.{env, event, parameters, world, advice}

pub sample-advises :
    (n : ℕ)
    → (advised : List LeastPrivilegePolicy × AwsEvent) × (n' : ℕ) × (advise env.uuid
          (with_real_role event)
          n
        ≡ (ok advised, n'))
unfolding with_real_role get_role_or_user_name_from_arn
sample-advises n =
    let (out, n', e, _) =
      advise-AllFollow env.uuid (with_real_role event) parameters "test-role" n refl refl in
    (out, n', e)

pub sample-IsSelected : All IsSelected world.store.actions
unfolding get_selected_advisory
sample-IsSelected = ((λ h. (advice, refl)), tt)

analyse_event_example :
    (a : AwsAction) × (w' : World Memory) × (analyse_event env in_memory [] event world
      ≡ (ok a, w'))
    × Analysed env (with_real_role event) world a w'
unfolding get_physical_id_from_arn_resource
analyse_event_example =
    analyse_event-Analysed env [] world event
      (record { account_id = "123456789012"; resource = "role/test-role" }) "test-role" refl refl
      sample-advises sample-IsSelected

abbrev empty_world : World Memory
empty_world = record { store = record { findings = []; actions = [] }; drawn = 0; read = 0 }

sample-IsAnalysable : IsAnalysable env event
unfolding get_physical_id_from_arn_resource
sample-IsAnalysable = (
  record { account_id = "123456789012"; resource = "role/test-role" },
  "test-role",
  refl,
  refl,
  sample-advises,
)

twice_example :
    (a b : AwsAction) × (v u : World Memory) × (analyse_event env in_memory [] event empty_world
      ≡ (ok a, v))
    × (analyse_event env in_memory [] event v ≡ (ok b, u))
    × (u.store.actions ≡ [] ++ a ∷ b ∷ [])
    × (b.finding_id ≡ a.finding_id)
twice_example =
    analyse_event-twice env [] empty_world event event sample-IsAnalysable sample-IsAnalysable refl
      tt

abbrev written_as : AwsData → Outcome String
written_as payload = ok "{}"

abbrev read_as : String → Outcome AwsData
read_as text = ok event.payload

abbrev no_findings : World (List DbAction)
no_findings = record { store = []; drawn = 0; read = 0 }

analyse_event-Rejected_example :
    Rejected [] (analyse_event env (postgres sample_pg written_as read_as) [] event no_findings)
analyse_event-Rejected_example =
    analyse_event-Rejected env sample_pg written_as read_as [] event no_rows no_findings refl
