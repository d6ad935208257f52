-- ===== src/Console/Tests.antt =====
-- The console's handlers on the sample storage.
use iamzero.Prelude.{String, ◌≡◌, refl, true, false, some, [], ◌∷◌}
use iamzero.Prelude.Outcome.{ok, err, plain}
use iamzero.Recommendations.{Finding}
use iamzero.Recommendations.Actions.{get_selected_advisory, select_advisory}
use iamzero.Storage.Memory.{Memory, in_memory, get_action, get_finding}
use iamzero.Runtime.{World}
use iamzero.Http.{RequestBody, decoded, decode_json_body, respond_json}
use iamzero.Console.Actions.{EditActionBody, edit_action, with_enabled, with_advisory}
use iamzero.Console.Actions.Edit.{Edited, edit_action-Edited}
use iamzero.Storage.Bolt.{Db, bolt}
use iamzero.Http.{http_error, cause}
use iamzero.Http.Errors.{IsOpaque, internal_error}
use iamzero.Console.Findings
use iamzero.Console.Findings.Missing.{get_finding-none}
use iamzero.Console.Findings.{set_finding_status}
use iamzero.Console.Findings.Status.{SetsStatus, set_finding_status-SetsStatus}
use iamzero.Samples.{env, advice, action, finding, memory, world}

abbrev edit : EditActionBody
edit = record { enabled = some false; selected_advisory_id = some "advice" }

abbrev edit_body : RequestBody EditActionBody
edit_body = record { content_type = "application/json"; first = decoded edit; at_end = true }

edit_action_example :
    (g : Finding) × (w' : World Memory) × (edit_action env in_memory "action" edit_body world
      ≡ (ok (respond_json g 200 ∷ []), w'))
    × Edited world (record action { enabled = false }) finding g w'
unfolding decode_json_body get_action get_finding with_enabled with_advisory select_advisory
    get_selected_advisory
edit_action_example =
    edit_action-Edited env world "action" edit_body edit action (record action { enabled = false })
      finding refl refl refl refl ((λ h. (advice, refl)), tt)

abbrev status_body : RequestBody String
status_body = record {
  content_type = "application/json";
  first = decoded "resolved";
  at_end = true;
}

set_finding_status_example :
    SetsStatus "finding" status_body memory
      (set_finding_status in_memory "finding" status_body memory)
set_finding_status_example = set_finding_status-SetsStatus "finding" status_body memory

abbrev no_db : Db Memory
no_db = record {
  findings = record {
    all = λ m. (ok [], m);
    one = λ id m. (err (plain "not found"), m);
    save = λ f m. (ok tt, m);
  };
  actions = record {
    all = λ m. (ok [], m);
    one = λ id m. (err (plain "not found"), m);
    save = λ a m. (ok tt, m);
  };
  with_status = λ status m. (ok [], m);
}

plain-IsOpaque : IsOpaque (plain "not found")
unfolding cause
plain-IsOpaque m status e = cc

get_finding_example :
    (Findings.get_finding in_memory "other" memory
      ≡ (ok (http_error "policy not found" 404 ∷ []), memory))
    × (Findings.get_finding (bolt no_db) "other" memory ≡ (ok (internal_error ∷ []), memory))
unfolding get_finding
get_finding_example =
    get_finding-none "other" memory no_db memory memory (plain "not found") refl refl plain-IsOpaque
