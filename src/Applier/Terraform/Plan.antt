-- ===== src/Applier/Terraform/Plan.antt =====
-- PlanTerraformFinding, PendingChanges and FindAndRemovePolicyAttachmentsForRole.
pub mod Pending
use iamzero.Prelude.{String, Option, none, some, List, [], ◌∷◌, map}
use iamzero.Prelude.Outcome.{ok, err, panic, plain, nil_pointer, Exec, ◌>>=◌, ◌>>◌, pure, lift}
use iamzero.Applier.{PendingChange, PendingChanges}
use iamzero.Applier.Terraform.{
  Hcl, FileHandler, Block, this_block, Blocks, StateFileResource, StateFileResources,
  StateFileResourceRef, TerraformFinding, TerraformIamPolicyApplier,
}
use iamzero.Applier.Terraform.Resources.{
  get_resource, find_policy_attachments_in_state_file_by_role_name,
}
use iamzero.Applier.Terraform.Editing.{remove_policy_attachment_role}
use iamzero.Applier.Terraform.References.{get_block}
use iamzero.Applier.Terraform.Policies.{apply_finding_to_block}

module _ {H F B : Type 0} (hcl : Hcl H F B) where
  change_of : H → String × F → PendingChange
  change_of h (path, f) = record { path = path; contents = hcl.formatted f h }

  unfoldable pub pending_changes : FileHandler H F → PendingChanges
  unfolding change_of
  pending_changes fh = map (change_of fh.heap) fh.hcl_files

  -- The block of an attachment that no block has the address of is dereferenced.
  remove_role : StateFileResource → Option (Block F B) → Exec (FileHandler H F) (Unit {0})
  unfolding remove_policy_attachment_role
  remove_role role none = lift (panic nil_pointer)
  remove_role role (some b) = remove_policy_attachment_role hcl (this_block b).raw_block role

  remove_roles :
      Blocks F B → StateFileResource → List StateFileResourceRef → Exec (FileHandler H F) (Unit {0})
  unfolding remove_role get_block
  remove_roles blocks role [] = pure tt
  remove_roles blocks role (attachment ∷ attachments) =
      remove_role role (get_block blocks attachment.key) >> remove_roles blocks role attachments

  unfoldable pub find_and_remove_policy_attachments_for_role :
      Blocks F B → StateFileResources → StateFileResourceRef → Exec (FileHandler H F) (Unit {0})
  unfolding find_policy_attachments_in_state_file_by_role_name remove_roles
  find_and_remove_policy_attachments_for_role blocks resources role =
      elim role.state_file_resource.instances [
        | i ∷ [] ↦
            lift (find_policy_attachments_in_state_file_by_role_name resources i.id)
            >>= λ attachments. remove_roles blocks role.state_file_resource attachments
        | _ ↦ lift (
            err (
              plain
                "failed to find a role name to search for when trying to remove policy attachemnts for role, check the provided statefile resource is correct"))
      ]

  plan_of_role :
      String
      → Blocks F B
      → StateFileResources
      → TerraformFinding
      → Option (Block F B)
      → Exec (FileHandler H F) PendingChanges
  unfolding find_and_remove_policy_attachments_for_role apply_finding_to_block pending_changes
  plan_of_role project_path blocks resources finding none = lift (
      err (
        plain
          "an error occurred finding the matching iam role in your terraform project, your state file may be outdated, try running 'terraform plan'"))
  plan_of_role project_path blocks resources finding (some role) =
      find_and_remove_policy_attachments_for_role blocks resources
        (get_resource resources finding.role)
      >> apply_finding_to_block hcl project_path blocks resources role finding
      >> λ fh. (ok (pending_changes fh), fh)

  planned :
      String
      → Option (Blocks F B)
      → Option StateFileResources
      → Option TerraformFinding
      → Exec (FileHandler H F) PendingChanges
  unfolding plan_of_role get_block get_resource
  planned project_path (some blocks) (some resources) none = lift (panic nil_pointer)
  planned project_path (some blocks) (some resources) (some finding) =
      plan_of_role project_path blocks resources finding
        (get_block blocks (get_resource resources finding.role).key)
  planned _ _ _ _ = lift (err (plain "applier not initialiser"))

  unfoldable pub plan_terraform_finding :
      TerraformIamPolicyApplier F B → Exec (FileHandler H F) PendingChanges
  unfolding planned
  plan_terraform_finding t = planned t.project_path t.blocks t.state_file_resources t.finding
