-- ===== src/Storage/Bolt.antt =====
-- pkg/storage/finding_bolt.go and action_bolt.go, over the calls of the storm library that they
-- make.
pub mod Contract
mod Tests
use iamzero.Prelude.{String, Option, none, some, List, []}
use iamzero.Prelude.Outcome.{Outcome, ok, err, panic, wrap_error, wrapping, Exec, ◌>>=◌, pure}
use iamzero.Recommendations.{AwsAction, Finding}
use iamzero.Storage.{EventStorage, FindingStorage, ActionStorage, Storage, FindByRoleQuery}
use iamzero.Storage.Noop.{no_op_event_storage}
use iamzero.Storage.Memory.{find_by_role, for_policy, enabled_only}

-- What storm does with one type of record: All, One by the ID, and Save.
pub record Bucket (S A : Type 0) : Type 0 where
  pub all : Exec S (List A)
  pub one : String → Exec S A
  pub save : A → Exec S (Unit {0})

-- `with_status` is Find by the field Status.
pub record Db (S : Type 0) : Type 0 where
  pub findings : Bucket S Finding
  pub actions : Bucket S AwsAction
  pub with_status : String → Exec S (List Finding)

-- An error of Find, as where nothing is found, is an empty list.
or_empty : Outcome (List Finding) → Outcome (List Finding)
or_empty (err e) = ok []
or_empty r = r

-- The address of the record that One has filled in.
found : {A : Type 0} → Outcome A → Outcome (Option A)
found (ok a) = ok (some a)
found (err e) = err e
found (panic p) = panic p

module _ {S : Type 0} (db : Db S) where
  pub bolt_list_findings : Exec S (List Finding)
  bolt_list_findings = wrapping "boltdb list policies" db.findings.all

  pub bolt_list_for_status : String → Exec S (List Finding)
  unfolding or_empty
  bolt_list_for_status status s = let r = db.with_status status s in (or_empty r.0, r.1)

  unfoldable pub bolt_get_finding : String → Exec S (Option Finding)
  unfolding found
  bolt_get_finding id s =
      let r = db.findings.one id s in (found (wrap_error "boltdb get finding" r.0), r.1)

  pub bolt_find_by_role : FindByRoleQuery → Exec S (Option Finding)
  bolt_find_by_role q = db.findings.all >>= λ policies. pure (find_by_role q policies)

  abbrev pub bolt_finding_storage : FindingStorage S
  bolt_finding_storage = record {
    list = bolt_list_findings;
    list_for_status = bolt_list_for_status;
    get = bolt_get_finding;
    find_by_role = bolt_find_by_role;
    create_or_update = db.findings.save;
  }

  pub bolt_list_for_policy : String → Exec S (List AwsAction)
  bolt_list_for_policy id = db.actions.all >>= λ actions. pure (for_policy id actions)

  -- Get fails where there is no action, so SetStatus need not test for nil.
  unfoldable pub bolt_set_status : String → String → Exec S (Unit {0})
  bolt_set_status id status =
      db.actions.one id >>= λ action. db.actions.save (record action { status = status })

  unfoldable pub bolt_get_action : String → Exec S (Option AwsAction)
  unfolding found
  bolt_get_action id s = let r = db.actions.one id s in (found r.0, r.1)

  abbrev pub bolt_action_storage : ActionStorage S
  bolt_action_storage = record {
    add = db.actions.save;
    list = db.actions.all;
    get = bolt_get_action;
    list_for_policy = bolt_list_for_policy;
    list_enabled_actions_for_finding =
        λ id. bolt_list_for_policy id >>= λ actions. pure (enabled_only actions);
    set_status = bolt_set_status;
    update = db.actions.save;
  }

  unfoldable pub bolt : Storage S
  bolt = record {
    event = no_op_event_storage;
    finding = bolt_finding_storage;
    action = bolt_action_storage;
  }
