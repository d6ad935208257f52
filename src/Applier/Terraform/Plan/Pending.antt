-- ===== src/Applier/Terraform/Plan/Pending.antt =====
-- What PlanTerraformFinding proposes.
use iamzero.Prelude.{String, ◌≡◌, refl, subst, Option, none, some}
use iamzero.Prelude.Outcome.{Outcome, ok, err, panic, Exec, ◌>>◌, after_call}
use iamzero.Applier.{PendingChanges}
use iamzero.Applier.Terraform.{
  Hcl, FileHandler, Block, Blocks, StateFileResources, TerraformFinding, TerraformIamPolicyApplier,
}
use iamzero.Applier.Terraform.Resources.{get_resource}
use iamzero.Applier.Terraform.References.{get_block}
use iamzero.Applier.Terraform.Policies.{apply_finding_to_block}
use iamzero.Applier.Terraform.Plan.{
  plan_terraform_finding, planned, plan_of_role, pending_changes,
  find_and_remove_policy_attachments_for_role,
}

module _ {H F B : Type 0} (hcl : Hcl H F B) where
  -- The changes are the open files.
  abbrev Pending : Outcome PendingChanges × FileHandler H F → Type 0
  Pending (ok changes, fh) = changes ≡ pending_changes hcl fh
  Pending (err e, fh) = Unit
  Pending (panic p, fh) = Unit

  Pending-after :
      {A : Type 0} (r : Outcome A × FileHandler H F) (f : A → Exec (FileHandler H F) PendingChanges)
      → ((a : A) (fh : FileHandler H F) → Pending (f a fh))
      → Pending (after_call r f)
  Pending-after (ok a, fh) f h = h a fh
  Pending-after (err e, fh) f h = tt
  Pending-after (panic p, fh) f h = tt

  plan_of_role-Pending :
      (project_path : String) (blocks : Blocks F B) (resources : StateFileResources)
      (finding : TerraformFinding) (role : Option (Block F B)) (fh : FileHandler H F)
      → Pending (plan_of_role hcl project_path blocks resources finding role fh)
  unfolding plan_of_role
  plan_of_role-Pending project_path blocks resources finding none fh = tt
  plan_of_role-Pending project_path blocks resources finding (some role) fh =
      Pending-after
        ((find_and_remove_policy_attachments_for_role hcl blocks resources
              (get_resource resources finding.role)
            >> apply_finding_to_block hcl project_path blocks resources role finding)
          fh)
        (λ u fh'. (ok (pending_changes hcl fh'), fh')) λ u fh'. refl

  planned-Pending :
      (project_path : String) (blocks : Option (Blocks F B)) (resources : Option StateFileResources)
      (finding : Option TerraformFinding) (fh : FileHandler H F)
      → Pending (planned hcl project_path blocks resources finding fh)
  unfolding planned
  planned-Pending project_path (some blocks) (some resources) none fh = tt
  planned-Pending project_path (some blocks) (some resources) (some finding) fh =
      plan_of_role-Pending project_path blocks resources finding
        (get_block blocks (get_resource resources finding.role).key) fh
  planned-Pending project_path (some blocks) none finding fh = tt
  planned-Pending project_path none resources finding fh = tt

  -- The changes that PlanTerraformFinding returns are the open files that it leaves.
  pub plan_terraform_finding-pending :
      (t : TerraformIamPolicyApplier F B) (changes : PendingChanges) (fh : FileHandler H F)
      → (plan_terraform_finding hcl t fh).0 ≡ ok changes
      → changes ≡ pending_changes hcl (plan_terraform_finding hcl t fh).1
  unfolding plan_terraform_finding
  plan_terraform_finding-pending t changes fh e =
      subst (λ r. Pending (r, (plan_terraform_finding hcl t fh).1)) e
        (planned-Pending t.project_path t.blocks t.state_file_resources t.finding fh)
