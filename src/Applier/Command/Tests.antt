-- ===== src/Applier/Command/Tests.antt =====
-- An applier that writes a file, and a user who accepts.
use iamzero.Prelude.{String, ◌≡◌, refl, Bool, true, List, [], ◌∷◌}
use iamzero.Prelude.Outcome.{ok, Exec, pure}
use iamzero.Recommendations.{AwsAction}
use iamzero.Applier.{PendingChanges, PolicyApplier}
use iamzero.Applier.Command.{apply_findings}
use iamzero.Samples.{finding}

-- The state is what the disk holds.
abbrev same_disk_as : List String → List String
same_disk_as s = s

abbrev writer : PolicyApplier (List String)
writer = record {
  init = pure tt;
  detect = pure true;
  calculate_finding = λ finding actions. pure tt;
  plan = pure (record { path = "main.tf"; contents = "new" } ∷ []);
  apply = λ plan s. (ok tt, "main.tf" ∷ s);
  get_project_name = "Terraform";
}

abbrev answer : Bool → Exec (List String) Bool
answer b = pure b

abbrev nothing : String → Exec (List String) (Unit {0})
nothing name = pure tt

abbrev no_diff : PendingChanges → Exec (List String) (Unit {0})
no_diff plan = pure tt

abbrev no_actions : String → Exec (List String) (List AwsAction)
no_actions id = pure []

accepted :
    apply_findings nothing no_diff (answer true) no_actions "." (finding ∷ []) (writer ∷ []) []
    ≡ (ok tt, "main.tf" ∷ [])
unfolding apply_findings
accepted = refl
