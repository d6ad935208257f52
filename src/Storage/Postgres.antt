-- ===== src/Storage/Postgres.antt =====
-- pkg/storage/finding_postgres.go, action_postgres.go and event_postgres.go, over one operation of
-- the database for each of their statements.  A row of findings or events is what sqlx fills in.
pub mod Connection
pub mod Empty
pub mod Samples
mod Tests
use iamzero.Prelude.{String, Option, none, some, List, [], ◌∷◌}
use iamzero.Prelude.Outcome.{
  Outcome, ok, Exec, ◌>>=◌, ◌>>◌, pure, lift, and_then, wrapping, wrap_error,
}
use iamzero.Recommendations.{AwsAction, AwsEvent, AwsData, Finding}
use iamzero.Storage.{EventStorage, FindingStorage, ActionStorage, Storage, FindByRoleQuery}

-- An action with the columns of its event, whose data is a text.
pub record DbAction : Type 0 where
  pub aws_action : AwsAction
  pub event_data : String

pub record PgDb (S : Type 0) : Type 0 where
  pub select_findings : Exec S (List Finding)
  pub select_findings_of_status : String → Exec S (List Finding)
  pub get_finding : String → Exec S Finding
  pub get_finding_of_role : String → String → Exec S Finding
  pub insert_finding : Finding → Exec S (Unit {0})
  pub select_actions : Exec S (List AwsAction)
  pub get_action : String → Exec S DbAction
  pub select_actions_of : String → Exec S (List DbAction)
  pub select_enabled_actions_of : String → Exec S (List DbAction)
  pub insert_action : AwsAction → Exec S (Unit {0})
  pub update_action_status : String → String → Exec S (Unit {0})
  pub update_action_row : AwsAction → Exec S (Unit {0})
  pub insert_event : AwsEvent → String → Exec S (Unit {0})
  pub update_event_row : AwsEvent → String → Exec S (Unit {0})
  pub select_events_of : String → Exec S (List AwsEvent)
  pub get_event : String → Exec S AwsEvent

set_payload : AwsAction → AwsData → AwsAction
set_payload a payload = record a { event = record event { payload = payload } }
  where
    open a use {event}

-- The address of what a call has filled in.
address_of : {S A : Type 0} → Exec S A → Exec S (Option A)
address_of m = m >>= λ a. pure (some a)

module _ {S : Type 0} (db : PgDb S) (marshal : AwsData → Outcome String)
    (unmarshal : String → Outcome AwsData) where
  pg_list_findings : Exec S (List Finding)
  pg_list_findings = wrapping "postgres list findings" db.select_findings

  pg_list_findings_for_status : String → Exec S (List Finding)
  pg_list_findings_for_status status =
      wrapping "postgres list findings for status" (db.select_findings_of_status status)

  pg_get_finding : String → Exec S (Option Finding)
  unfolding address_of
  pg_get_finding id = address_of (wrapping "postgres get finding" (db.get_finding id))

  unfoldable pub pg_find_by_role : FindByRoleQuery → Exec S (Option Finding)
  unfolding address_of
  pg_find_by_role query = address_of (db.get_finding_of_role query.role query.status)

  pg_create_or_update : Finding → Exec S (Unit {0})
  pg_create_or_update f = db.insert_finding f

  -- The action of a row, with the data of its event.
  unfoldable pub with_event_data : DbAction → Outcome AwsAction
  unfolding set_payload
  with_event_data a =
      and_then (wrap_error "postgres get action, unmarshalling event data" (unmarshal a.event_data))
        λ payload. ok (set_payload a.aws_action payload)

  -- The first data that cannot be read ends the loop.
  unfoldable pub with_events_data : List DbAction → Outcome (List AwsAction)
  unfolding with_event_data
  with_events_data [] = ok []
  with_events_data (a ∷ actions) =
      and_then (with_event_data a)
        λ act. and_then (with_events_data actions) λ acts. ok (act ∷ acts)

  pg_list_actions : Exec S (List AwsAction)
  pg_list_actions = wrapping "postgres list actions" db.select_actions

  pg_get_action : String → Exec S (Option AwsAction)
  unfolding with_event_data address_of
  pg_get_action id =
      address_of
        (wrapping "postgres get action" (db.get_action id) >>= λ a. lift (with_event_data a))

  pg_add : AwsAction → Exec S (Unit {0})
  pg_add a =
      lift (marshal a.event.payload) >>= λ text. db.insert_event a.event text >> db.insert_action a

  unfoldable pub pg_list_for_policy : String → Exec S (List AwsAction)
  unfolding with_events_data
  pg_list_for_policy finding_id =
      wrapping "postgres list actions" (db.select_actions_of finding_id) >>= λ actions.
      lift (with_events_data actions)

  pg_list_enabled_actions_for_finding : String → Exec S (List AwsAction)
  unfolding with_events_data
  pg_list_enabled_actions_for_finding finding_id =
      wrapping "postgres list actions" (db.select_enabled_actions_of finding_id) >>= λ actions.
      lift (with_events_data actions)

  pg_set_status : String → String → Exec S (Unit {0})
  pg_set_status id status =
      wrapping "postgres set status actions" (db.update_action_status status id)

  pg_update : AwsAction → Exec S (Unit {0})
  pg_update action =
      wrapping "postgres update actions" (db.update_action_row action)
      >> (lift (wrap_error "postgres update actions, updating event" (marshal action.event.payload))
          >>= λ text.
              wrapping "postgres update actions, updating event"
                (db.update_event_row action.event text))

  pg_list_for_finding : String → Exec S (List AwsEvent)
  pg_list_for_finding finding_id = wrapping "postgres list events" (db.select_events_of finding_id)

  -- The driver writes the data of the event as the text that its Value method gives.
  pg_create_event : AwsEvent → Exec S (Unit {0})
  pg_create_event e = lift (marshal e.payload) >>= λ text. db.insert_event e text

  pg_get_event : String → Exec S (Option AwsEvent)
  unfolding address_of
  pg_get_event id = address_of (wrapping "postgres get event" (db.get_event id))

  unfoldable pub postgres : Storage S
  unfolding pg_list_findings pg_list_findings_for_status pg_get_finding pg_find_by_role
      pg_create_or_update pg_list_actions pg_get_action pg_add pg_list_for_policy
      pg_list_enabled_actions_for_finding pg_set_status pg_update pg_list_for_finding
      pg_create_event pg_get_event
  postgres = record {
    event = record {
      list_for_finding = pg_list_for_finding;
      get = pg_get_event;
      create = pg_create_event;
    };
    finding = record {
      list = pg_list_findings;
      list_for_status = pg_list_findings_for_status;
      get = pg_get_finding;
      find_by_role = pg_find_by_role;
      create_or_update = pg_create_or_update;
    };
    action = record {
      add = pg_add;
      list = pg_list_actions;
      get = pg_get_action;
      list_for_policy = pg_list_for_policy;
      list_enabled_actions_for_finding = pg_list_enabled_actions_for_finding;
      set_status = pg_set_status;
      update = pg_update;
    };
  }
