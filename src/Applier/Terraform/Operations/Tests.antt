-- ===== src/Applier/Terraform/Operations/Tests.antt =====
-- A project with a role and a bucket, whose disk is a list of paths and texts.
use iamzero.Prelude.{
  ℕ, String, ◌≡◌, refl, ap, ◌∙◌, sym, Bool, true, Option, none, some, List, [], ◌∷◌, arith, eq_iff,
  eq_refl,
}
use iamzero.Prelude.Assoc.{lookup, insert, lookup-insert}
use iamzero.Prelude.Outcome.{Outcome, ok, err, plain, Exec}
use iamzero.Applier.{PendingChanges, PolicyApplier, write_changes}
use iamzero.Applier.Written.{WritesFiles, contents_after}
use iamzero.Applier.Terraform.{Hcl, in_root, missing, StateFile, StateFileResource}
use iamzero.Applier.Terraform.Samples.{SampleBlock, SampleHeap, sample_hcl}
use iamzero.Applier.Terraform.Plan.{plan_terraform_finding, pending_changes}
use iamzero.Applier.Terraform.Operations.{TerraformState, terraform_applier, plan, apply}
use iamzero.Applier.Terraform.Operations.Applied.{applier_of, plan-apply}
use iamzero.Samples.{finding}

abbrev Disk : Type 0
Disk = List (String × String)

abbrev hcl_on : Disk → Hcl SampleHeap ℕ SampleBlock
hcl_on d = sample_hcl λ path. missing "no such file"

abbrev exists : String → Disk → Bool
exists path d = true

abbrev unmarshal : String → Outcome StateFile
unmarshal text = ok (record { resources = [] })

abbrev get_object : Option String → String → String → Outcome String
get_object role bucket key = err (plain "no object")

abbrev write_file : String → String → Exec Disk (Unit {0})
write_file path text d = (ok tt, insert path text d)

writes : WritesFiles write_file lookup
writes = record {
  written = λ path text d d' e.
      ap (λ x. lookup path x.1) (sym e)
      ∙ lookup-insert path path text d
      ∙ ground (arith, eq_refl path);
  kept = λ path text q d d' e ne.
      ap (λ x. lookup q x.1) (sym e)
      ∙ lookup-insert path q text d
      ∙ ground (arith, eq_iff path q, ne);
}

abbrev role_block : SampleBlock
role_block = record { number = 0; type_name = "resource"; address = "aws_iam_role.app" }

abbrev role_resource : StateFileResource
role_resource = record {
  type_name = "aws_iam_role";
  name = "app";
  module_name = none;
  instances = record { arn = "role-arn"; policy_arn = ""; id = "app"; roles = [] } ∷ [];
}

abbrev state : TerraformState SampleHeap ℕ SampleBlock Disk
state = record {
  applier = record {
    project_path = "app";
    finding = some (record { finding_id = "f"; role = "role-arn"; recommendations = [] });
    blocks = some (
        (
          "aws_iam_role.app",
          in_root (record {
            file = 9;
            raw_block = role_block;
            path = "app/main.tf";
            address_in_file = "aws_iam_role.app";
          }),
        )
        ∷ []);
    state_file_resources = some (
        ("role-arn", record { key = "aws_iam_role.app"; state_file_resource = role_resource })
        ∷ []);
  };
  files = record {
    heap = record {
      next = 10;
      in_file = λ n. role_block ∷ [];
      in_block = λ n. [];
      texts = λ n name. none;
    };
    hcl_files = ("app/main.tf", 9) ∷ [];
  };
  disk = ("app/main.tf", "old") ∷ ("README.md", "text") ∷ [];
}

abbrev changes : PendingChanges
changes = record { path = "app/main.tf"; contents = "aws_iam_role.app" } ∷ []

abbrev applier : PolicyApplier (TerraformState SampleHeap ℕ SampleBlock Disk)
applier = applier_of hcl_on exists unmarshal get_object none write_file 5

plans : applier.plan state ≡ (ok changes, (applier.plan state).1)
unfolding terraform_applier plan plan_terraform_finding
plans = refl

applies :
    applier.apply changes (applier.plan state).1
    ≡ (ok tt, (applier.apply changes (applier.plan state).1).1)
unfolding terraform_applier apply write_changes
applies = refl

plan-apply_example :
    lookup "app/main.tf" (applier.apply changes (applier.plan state).1).1.disk
    ≡ contents_after "app/main.tf"
        (pending_changes (hcl_on state.disk) (applier.plan state).1.files)
        (lookup "app/main.tf" state.disk)
plan-apply_example =
    plan-apply hcl_on exists unmarshal get_object none write_file 5 lookup state
      (applier.plan state).1 (applier.apply changes (applier.plan state).1).1 changes "app/main.tf"
      writes plans applies
