-- ===== src/Storage.antt =====
-- pkg/storage: the interfaces of event.go, finding.go, action.go and storage.go.  A call changes
-- the state `S` of the storage and may fail.
pub mod Memory
pub mod Noop
pub mod Bolt
pub mod Postgres
use iamzero.Prelude.{String, Option, List}
use iamzero.Prelude.Outcome.{Exec}
use iamzero.Recommendations.{AwsEvent, AwsAction, Finding}

pub record FindByRoleQuery : Type 0 where
  pub role : String
  pub status : String

pub record EventStorage (S : Type 0) : Type 0 where
  pub list_for_finding : String → Exec S (List AwsEvent)
  pub get : String → Exec S (Option AwsEvent)
  pub create : AwsEvent → Exec S (Unit {0})

pub record FindingStorage (S : Type 0) : Type 0 where
  pub list : Exec S (List Finding)
  pub list_for_status : String → Exec S (List Finding)
  pub get : String → Exec S (Option Finding)
  pub find_by_role : FindByRoleQuery → Exec S (Option Finding)
  pub create_or_update : Finding → Exec S (Unit {0})

pub record ActionStorage (S : Type 0) : Type 0 where
  pub add : AwsAction → Exec S (Unit {0})
  pub list : Exec S (List AwsAction)
  pub get : String → Exec S (Option AwsAction)
  pub list_for_policy : String → Exec S (List AwsAction)
  pub list_enabled_actions_for_finding : String → Exec S (List AwsAction)
  pub set_status : String → String → Exec S (Unit {0})
  pub update : AwsAction → Exec S (Unit {0})

pub record Storage (S : Type 0) : Type 0 where
  pub event : EventStorage S
  pub finding : FindingStorage S
  pub action : ActionStorage S
