-- ===== src/Console/Actions.antt =====
-- cmd/console/app/api/actions.go.
pub mod Edit
use iamzero.Prelude.{ℕ, suc, String, Bool, Option, none, some, List, [], ◌∷◌, map}
use iamzero.Prelude.Outcome.{Outcome, ok, err, panic, Exec, lift}
use iamzero.Recommendations.{
  AwsAction, AwsEvent, Finding, Time, RecommendationDetails, LeastPrivilegePolicy,
}
use iamzero.Recommendations.Actions.{details, select_advisory}
use iamzero.Recommendations.Findings.{recalculate_document}
use iamzero.Storage.{Storage}
use iamzero.Runtime.{Env, World, stored, read_time}
use iamzero.Http.{
  Response, Handler, RequestBody, respond_json, respond_text, http_error, or_respond, respond,
  decode_json_body,
}

-- The Resources of the source are never filled.
pub record ActionResponse : Type 0 where
  pub id : String
  pub finding_id : String
  pub event : AwsEvent
  pub status : String
  pub time : Time
  pub recommendations : List RecommendationDetails
  pub has_recommendations : Bool

all_details : List LeastPrivilegePolicy → List RecommendationDetails
unfolding details
all_details [] = []
all_details (r ∷ rs) = details r ∷ all_details rs

unfoldable pub build_action_response : AwsAction → ActionResponse
unfolding all_details
build_action_response a = record {
  id = a.id;
  finding_id = a.finding_id;
  event = a.event;
  status = a.status;
  time = a.time;
  recommendations = all_details a.recommendations;
  has_recommendations = a.has_recommendations;
}

pub record EditActionBody : Type 0 where
  pub enabled : Option Bool
  pub selected_advisory_id : Option String

unfoldable pub with_enabled : Option Bool → AwsAction → AwsAction
with_enabled none a = a
with_enabled (some b) a = record a { enabled = b }

unfoldable pub with_advisory : Option String → AwsAction → Outcome AwsAction
unfolding select_advisory
with_advisory none a = ok a
with_advisory (some id) a = select_advisory id a

module _ {S : Type 0} (env : Env) (storage : Storage S) where
  unfoldable pub list_actions : Handler (World S) (List ActionResponse)
  unfolding build_action_response respond_json
  list_actions =
      or_respond (stored storage.action.list)
        λ actions. respond (respond_json (map build_action_response actions) 200)

  action_or_not : Option AwsAction → Handler (World S) ActionResponse
  unfolding build_action_response respond_json
  action_or_not none = respond (http_error "action not found" 404)
  action_or_not (some a) = respond (respond_json (build_action_response a) 200)

  unfoldable pub get_action : String → Handler (World S) ActionResponse
  unfolding action_or_not
  get_action id = or_respond (stored (storage.action.get id)) action_or_not

  -- From the edited action on: it is stored, and the document of its finding is rebuilt.
  unfoldable pub store_edited : Finding → AwsAction → Handler (World S) Finding
  unfolding read_time respond_json recalculate_document
  store_edited policy action = or_respond (stored (storage.action.update action)) λ _.
      or_respond (stored (storage.action.list_for_policy policy.id)) λ actions.
        or_respond (read_time env) λ now.
          or_respond (lift (recalculate_document now actions policy)) λ policy'.
            or_respond (stored (storage.finding.create_or_update policy'))
              λ _. respond (respond_json policy' 200)

  edit_with_policy : EditActionBody → AwsAction → Option Finding → Handler (World S) Finding
  unfolding store_edited with_enabled with_advisory
  edit_with_policy b action none = respond (respond_text "policy not found" 404)
  edit_with_policy b action (some policy) =
      or_respond (lift (with_advisory b.selected_advisory_id (with_enabled b.enabled action)))
        (store_edited policy)

  edit_found : EditActionBody → Option AwsAction → Handler (World S) Finding
  unfolding edit_with_policy
  edit_found b none = respond (respond_text "action not found" 404)
  edit_found b (some action) =
      or_respond (stored (storage.finding.get action.finding_id)) (edit_with_policy b action)

  unfoldable pub edit_action : String → RequestBody EditActionBody → Handler (World S) Finding
  unfolding edit_found decode_json_body
  edit_action id body =
      or_respond (lift (decode_json_body body))
        λ b. or_respond (stored (storage.action.get id)) (edit_found b)
