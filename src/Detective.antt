-- ===== src/Detective.antt =====
-- pkg/events/detective.go: an event becomes an action and a new or updated finding.
pub mod Calls
pub mod Recorded
pub mod Repeated
pub mod OverPostgres
pub mod Tests
use iamzero.Prelude.{ℕ, suc, String, Bool, true, false, Option, none, some, List, [], ◌∷◌, ◌==◌}
use iamzero.Prelude.Outcome.{Outcome, ok, Exec, ◌>>=◌, ◌>>◌, pure, lift}
use iamzero.Policies.{CdkResource}
use iamzero.Arn.{extract_role_arn_from_session}
use iamzero.Recommendations.{Time, AwsEvent, AwsAction, AwsIdentity, Finding, LeastPrivilegePolicy}
use iamzero.Recommendations.Advice.{advise}
use iamzero.Recommendations.Findings.{policy_status_active, recalculate_document}
use iamzero.Storage.{Storage, FindByRoleQuery}
use iamzero.Runtime.{ParsedArn, Env, World, stored, drawing, draw_id, read_time}
use iamzero.Audit.Resources.{get_physical_id_from_arn_resource, get_by_physical_id}

abbrev pub alert_active : String
alert_active = "active"

-- The event with the ARN of the role in place of that of a session.
with_role : AwsEvent → Option String → AwsEvent
with_role e none = e
with_role e (some role) = record e { identity = record identity { role = role } }
  where
    open e use {identity}

unfoldable pub with_real_role : AwsEvent → AwsEvent
unfolding with_role extract_role_arn_from_session
with_real_role e = with_role e (extract_role_arn_from_session e.identity.role)

abbrev pub new_finding : String → Time → AwsEvent → Option CdkResource → Finding
new_finding id now e cdk = record {
  id = id;
  identity = record {
    user = e.identity.user;
    role = e.identity.role;
    account = e.identity.account;
    cdk_resource = cdk;
  };
  updated_at = now;
  event_count = 0;
  document = record { version = "2012-10-17"; id = none; statement = [] };
  status = "active";
}

-- The action of an event, with the first advice selected.
abbrev pub new_action : String → Time → String → AwsEvent → List LeastPrivilegePolicy → AwsAction
new_action id now finding_id e [] = record {
  id = id;
  finding_id = finding_id;
  event = e;
  status = alert_active;
  time = now;
  recommendations = [];
  has_recommendations = false;
  enabled = true;
  selected_least_privilege_policy_id = "";
}
new_action id now finding_id e (a ∷ advice) = record {
  id = id;
  finding_id = finding_id;
  event = e;
  status = alert_active;
  time = now;
  recommendations = a ∷ advice;
  has_recommendations = true;
  enabled = true;
  selected_least_privilege_policy_id = a.id;
}

module _ {S : Type 0} (env : Env) (storage : Storage S) (cdk : List CdkResource) where
  -- The finding that was found, or a new one.
  unfoldable pub finding_for :
      AwsEvent → Option CdkResource → Option Finding → Exec (World S) Finding
  unfolding draw_id read_time
  finding_for e resource (some f) = pure f
  finding_for e resource none = do
    id ← draw_id env
    now ← read_time env
    pure (new_finding id now e resource)

  -- From the advice on: the action is added, and the finding is rebuilt from all its actions.
  unfoldable pub record_action :
      Finding → List LeastPrivilegePolicy × AwsEvent → Exec (World S) AwsAction
  unfolding draw_id read_time
  record_action finding advised = do
    id ← draw_id env
    now ← read_time env
    let action = new_action id now finding.id advised.1 advised.0
    stored (storage.action.add action)
    actions ← stored (storage.action.list_for_policy finding.id)
    updated ← read_time env
    finding' ← lift (recalculate_document updated actions finding)
    stored (storage.finding.create_or_update finding')
    pure action

  unfoldable pub analyse_event : AwsEvent → Exec (World S) AwsAction
  unfolding finding_for
  analyse_event event = do
    let e = with_real_role event
    arn ← lift (env.parse_arn e.identity.role)
    physical_id ← lift (get_physical_id_from_arn_resource arn.resource)
    let resource = get_by_physical_id physical_id cdk
    found ← stored (
        storage.finding.find_by_role
          (record { role = e.identity.role; status = policy_status_active }))
    finding ← finding_for e resource found
    advised ← drawing (advise env.uuid e)
    record_action finding advised
