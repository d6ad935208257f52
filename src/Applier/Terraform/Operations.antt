-- ===== src/Applier/Terraform/Operations.antt =====
-- The methods of TerraformIAMPolicyApplier that package applier asks for, on the applier, its open
-- files and the disk.  `hcl_on` is what the code calls over a disk, `exists` whether os.Stat finds a
-- path on it, and `write_file` ioutil.WriteFile.
pub mod Applied
mod Tests
use iamzero.Prelude.{ℕ, String, Bool, Option, some, List}
use iamzero.Prelude.Outcome.{Outcome, ok, Exec, ◌>>=◌, lift}
use iamzero.Recommendations.{AwsAction, Finding}
use iamzero.Applier.{PendingChanges, PolicyApplier, write_changes}
use iamzero.Applier.Terraform.{
  Hcl, FileHandler, StateFile, TerraformFinding, TerraformIamPolicyApplier,
}
use iamzero.Applier.Terraform.Findings.{calculate_terraform_finding}
use iamzero.Applier.Terraform.References.{get_root_file_path}
use iamzero.Applier.Terraform.Plan.{plan_terraform_finding}
use iamzero.Applier.Terraform.State

pub record TerraformState (H F B D : Type 0) : Type 0 where
  pub applier : TerraformIamPolicyApplier F B
  pub files : FileHandler H F
  pub disk : D

module _ {H F B D : Type 0} (hcl_on : D → Hcl H F B) (exists : String → D → Bool)
    (unmarshal : String → Outcome StateFile)
    (get_object : Option String → String → String → Outcome String) (assume_role : Option String)
    (write_file : String → String → Exec D (Unit {0})) (fuel : ℕ) where
  on_files : {A : Type 0} → Exec (FileHandler H F) A → Exec (TerraformState H F B D) A
  on_files m s = let (r, fh) = m s.files in (r, record s { files = fh })

  on_disk : {A : Type 0} → Exec D A → Exec (TerraformState H F B D) A
  on_disk m s = let (r, d) = m s.disk in (r, record s { disk = d })

  set_applier : TerraformIamPolicyApplier F B → Exec (TerraformState H F B D) (Unit {0})
  set_applier t s = (ok tt, record s { applier = t })

  unfoldable pub init : Exec (TerraformState H F B D) (Unit {0})
  unfolding State.init on_files set_applier
  init s =
      (on_files (
            State.init (hcl_on s.disk) (λ path. exists path s.disk) unmarshal get_object assume_role
              s.applier.project_path fuel s.applier)
          >>= set_applier)
        s

  unfoldable pub detect : Exec (TerraformState H F B D) Bool
  unfolding get_root_file_path
  detect s = (ok (exists (get_root_file_path (hcl_on s.disk) s.applier.project_path) s.disk), s)

  set_finding : TerraformFinding → Exec (TerraformState H F B D) (Unit {0})
  set_finding finding s = (ok tt, record s { applier = record applier { finding = some finding } })
    where
      open s use {applier}

  unfoldable pub calculate_finding :
      Finding → List AwsAction → Exec (TerraformState H F B D) (Unit {0})
  unfolding calculate_terraform_finding set_finding
  calculate_finding policy actions =
      lift (calculate_terraform_finding policy actions) >>= set_finding

  unfoldable pub plan : Exec (TerraformState H F B D) PendingChanges
  unfolding plan_terraform_finding on_files
  plan s = on_files (plan_terraform_finding (hcl_on s.disk) s.applier) s

  unfoldable pub apply : PendingChanges → Exec (TerraformState H F B D) (Unit {0})
  unfolding on_disk write_changes
  apply changes = on_disk (write_changes write_file changes)

  unfoldable pub terraform_applier : PolicyApplier (TerraformState H F B D)
  unfolding init detect calculate_finding plan apply
  terraform_applier = record {
    init = init;
    detect = detect;
    calculate_finding = calculate_finding;
    plan = plan;
    apply = apply;
    get_project_name = "Terraform";
  }
