-- ===== src/Applier/Terraform/Operations/Applied.antt =====
-- What the methods of the Terraform applier do to the disk.
use iamzero.Prelude.{ℕ, String, ◌≡◌, sym, ap, ◌∙◌, Bool, Option}
use iamzero.Prelude.Outcome.{Outcome, ok, Exec}
use iamzero.Applier.{PendingChanges, PolicyApplier, write_changes}
use iamzero.Applier.Written.{WritesFiles, contents_after, write_changes-contents}
use iamzero.Applier.Terraform.{Hcl, StateFile}
use iamzero.Applier.Terraform.State
use iamzero.Applier.Terraform.Plan.{plan_terraform_finding, pending_changes}
use iamzero.Applier.Terraform.Plan.Pending.{plan_terraform_finding-pending}
use iamzero.Applier.Terraform.Operations.{
  TerraformState, on_files, on_disk, plan, apply, terraform_applier,
}

module _ {H F B D : Type 0} (hcl_on : D → Hcl H F B) (exists : String → D → Bool)
    (unmarshal : String → Outcome StateFile)
    (get_object : Option String → String → String → Outcome String) (assume_role : Option String)
    (write_file : String → String → Exec D (Unit {0})) (fuel : ℕ) where
  abbrev pub applier_of : PolicyApplier (TerraformState H F B D)
  applier_of = terraform_applier hcl_on exists unmarshal get_object assume_role write_file fuel

  module _ (read : String → D → Option String) where
    -- Over a disk whose writes that succeed are read back: where PlanTerraformFinding succeeds, and
    -- then Apply of the changes that it proposes, each path holds what hclwrite formats for the open
    -- file of that path, as PlanTerraformFinding left it, and a path that is not open holds what it
    -- held before.
    pub plan-apply :
        (s s₁ s₂ : TerraformState H F B D) (changes : PendingChanges) (path : String)
        → WritesFiles write_file read
        → applier_of.plan s ≡ (ok changes, s₁)
        → applier_of.apply changes s₁ ≡ (ok tt, s₂)
        → read path s₂.disk
          ≡ contents_after path (pending_changes (hcl_on s.disk) s₁.files) (read path s.disk)
    unfolding terraform_applier plan apply on_files on_disk plan_terraform_finding
    plan-apply s s₁ s₂ changes path files p a =
        let r = plan_terraform_finding (hcl_on s.disk) s.applier s.files in
        let w = write_changes write_file changes s₁.disk in
        let same_files : s₁.files ≡ r.1 = ap (λ x. x.1.files) (sym p) in
        let same_disk : s₁.disk ≡ s.disk = ap (λ x. x.1.disk) (sym p) in
        let planned : changes ≡ pending_changes (hcl_on s.disk) s₁.files =
          plan_terraform_finding-pending (hcl_on s.disk) s.applier changes s.files (ap (λ x. x.0) p)
          ∙ ap (pending_changes (hcl_on s.disk)) (sym same_files) in
        ap (λ x. read path x.1.disk) (sym a)
        ∙ write_changes-contents write_file read changes s₁.disk path files (ap (λ x. x.0) a)
        ∙ ap (λ d. contents_after path changes (read path d)) same_disk
        ∙ ap (λ cs. contents_after path cs (read path s.disk)) planned
