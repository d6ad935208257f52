-- ===== src/Applier.antt =====
-- pkg/applier: the changes that an applier proposes.
pub mod Terraform
pub mod Written
pub mod Diff
pub mod Cdk
pub mod Command
use iamzero.Prelude.{String, Bool, List, [], ◌∷◌}
use iamzero.Prelude.Outcome.{Exec, ◌>>◌, pure}
use iamzero.Recommendations.{AwsAction, Finding}

pub record PendingChange : Type 0 where
  pub path : String
  pub contents : String

abbrev pub PendingChanges : Type 0
PendingChanges = List PendingChange

-- PolicyApplier: its operations on a state that holds the applier and what is on the disk.
pub record PolicyApplier (S : Type 0) : Type 0 where
  pub init : Exec S (Unit {0})
  pub detect : Exec S Bool
  pub calculate_finding : Finding → List AwsAction → Exec S (Unit {0})
  pub plan : Exec S PendingChanges
  pub apply : PendingChanges → Exec S (Unit {0})
  pub get_project_name : String

-- The loop of Apply, the same in both appliers: the first write that fails ends it.
unfoldable pub write_changes :
    {D : Type 0} → (String → String → Exec D (Unit {0})) → PendingChanges → Exec D (Unit {0})
write_changes write_file [] = pure tt
write_changes write_file (change ∷ changes) =
    write_file change.path change.contents >> write_changes write_file changes
