-- ===== src/Console/Findings.antt =====
-- cmd/console/app/api/findings.go.  A handler takes the parts of the request that it reads.
pub mod Status
pub mod Missing
use iamzero.Prelude.{
  String, Bool, true, false, not, ◌||◌, Option, none, some, List, [], ◌∷◌, ◌++◌, ◌==◌,
  if◌then◌else◌,
}
use iamzero.Prelude.Outcome.{Outcome, ok, err, panic, Exec, lift}
use iamzero.Recommendations.{Finding, AwsAction}
use iamzero.Recommendations.Findings.{finding_status_is_valid}
use iamzero.Storage.{Storage, FindByRoleQuery}
use iamzero.Http.{
  Response, Handler, RequestBody, respond_json, respond_error, http_error, or_respond, respond,
  decode_json_body,
}

abbrev pub bad_status : {P : Type 0} → Response P
bad_status = http_error "finding status must be 'active' or 'resolved'" 400

-- The payload is a list of findings, of actions, or one finding.
module _ {S : Type 0} (storage : Storage S) where
  unfoldable pub list_findings : String → Handler S (List Finding)
  unfolding respond_json
  list_findings status =
      let send = λ (fs : List Finding). respond (respond_json fs 200) in
      if status == ""
      then or_respond storage.finding.list send
      else if finding_status_is_valid status
      then or_respond (storage.finding.list_for_status status) send
      else respond bad_status

  -- The end of GetFinding and FindFinding.
  found_or_not : Option Finding → Handler S Finding
  unfolding respond_json
  found_or_not none = respond (http_error "policy not found" 404)
  found_or_not (some f) = respond (respond_json f 200)

  unfoldable pub get_finding : String → Handler S Finding
  unfolding found_or_not
  get_finding id = or_respond (storage.finding.get id) found_or_not

  unfoldable pub list_actions_for_finding : String → Handler S (List AwsAction)
  unfolding respond_json
  list_actions_for_finding id =
      or_respond (storage.action.list_for_policy id) λ actions. respond (respond_json actions 200)

  unfoldable pub find_finding : String → String → Handler S Finding
  unfolding found_or_not
  find_finding role status =
      if role == "" || status == ""
      then respond (http_error "role and status must be provided as query parameters" 400)
      else or_respond (storage.finding.find_by_role (record { role = role; status = status }))
          found_or_not

  -- RespondJSON is also reached when CreateOrUpdate failed and its error has been sent.
  written : Finding → Outcome (Unit {0}) × S → Outcome (List (Response Finding)) × S
  unfolding respond_json
  written f (ok _, s) = (ok (respond_json f 200 ∷ []), s)
  written f (err e, s) = (ok (respond_error e ∷ respond_json f 200 ∷ []), s)
  written f (panic p, s) = (panic p, s)

  write_status : String → Option Finding → Handler S Finding
  unfolding written
  write_status status none s = respond (http_error "finding not found" 404) s
  write_status status (some f) s =
      let g : Finding = record f { status = status } in
      written g (storage.finding.create_or_update g s)

  unfoldable pub set_finding_status : String → RequestBody String → Handler S Finding
  unfolding write_status decode_json_body
  set_finding_status id body = or_respond (lift (decode_json_body body)) λ status.
      if finding_status_is_valid status
      then or_respond (storage.finding.get id) (write_status status)
      else respond bad_status
