-- ===== src/Applier/Terraform/Tests.antt =====
-- Runs of the Terraform applier.
use iamzero.Prelude.{ℕ, String, ◌≡◌, refl, false, none, some, [], ◌∷◌, eqb, if◌then◌else◌, map}
use iamzero.Prelude.Text.{split}
use iamzero.Prelude.Assoc.{lookup}
use iamzero.Prelude.Outcome.{ok, plain}
use iamzero.Policies.{AwsIamStatement}
use iamzero.Applier.Terraform.{
  Hcl, FileHandler, Block, in_root, Blocks, ReadResult, missing, StateFile, StateFileResource,
  StateFileResources, TerraformFinding, TerraformStatement,
}
use iamzero.Applier.Terraform.Samples.{SampleBlock, SampleHeap, sample_hcl, Live, sample_laws}
use iamzero.Applier.Terraform.Addresses.{traversal_from_address}
use iamzero.Applier.Terraform.Files.{open_file, open_and_parse_hcl_file}
use iamzero.Applier.Terraform.Files.Reopened.{open_file-twice}
use iamzero.Applier.Terraform.Findings.{terraform_statement}
use iamzero.Applier.Terraform.Resources.{parse_state_file_to_state_file_resources}
use iamzero.Applier.Terraform.Resources.Owners.{get-parse_state_file, last_owner}
use iamzero.Applier.Terraform.Addresses.Written.{written, written-traversal_from_address}
use iamzero.Applier.Terraform.References.{resource_reference, first_part, same_file_arn}
use iamzero.Applier.Terraform.References.Unknown.{resource_reference-unknown}
use iamzero.Applier.Terraform.Policies.{apply_finding_to_block}
use iamzero.Applier.Terraform.Policies.Replaced.{apply_finding_to_block-Replaced, Replaced}

abbrev no_disk : String → ReadResult
no_disk path = missing "no such file"

abbrev hcl : Hcl SampleHeap ℕ SampleBlock
hcl = sample_hcl no_disk

abbrev role_block : SampleBlock
role_block = record { number = 0; type_name = "resource"; address = "aws_iam_role.app" }

abbrev inline : SampleBlock
inline = record { number = 1; type_name = "inline_policy"; address = "" }

abbrev tags : SampleBlock
tags = record { number = 2; type_name = "tags"; address = "" }

abbrev attachment : SampleBlock
attachment = record { number = 3; type_name = "resource"; address = "aws_iam_policy_attachment.a" }

abbrev bucket_block : SampleBlock
bucket_block = record { number = 4; type_name = "resource"; address = "aws_s3_bucket.b" }

abbrev settings : SampleBlock
settings = record { number = 5; type_name = "terraform"; address = "" }

abbrev handler : FileHandler SampleHeap ℕ
handler = record {
  heap = record {
    next = 10;
    in_file = λ n. role_block ∷ attachment ∷ bucket_block ∷ settings ∷ [];
    in_block = λ n. if eqb n 0 then inline ∷ tags ∷ [] else [];
    texts = λ n name. some "[aws_iam_role.app,\"other\"]";
  };
  hcl_files = ("app/main.tf", 9) ∷ [];
}

abbrev in_main : SampleBlock → Block ℕ SampleBlock
in_main b =
    in_root (record { file = 9; raw_block = b; path = "app/main.tf"; address_in_file = b.address })

abbrev role : Block ℕ SampleBlock
role = in_main role_block

abbrev blocks : Blocks ℕ SampleBlock
blocks =
    ("", in_main settings)
    ∷ ("aws_iam_role.app", role)
    ∷ ("aws_s3_bucket.b", in_main bucket_block)
    ∷ []

abbrev bucket : StateFileResource
bucket = record {
  type_name = "aws_s3_bucket";
  name = "b";
  module_name = none;
  instances = record { arn = "arn:aws:s3:::b"; policy_arn = ""; id = "b"; roles = [] } ∷ [];
}

abbrev state_file : StateFile
state_file = record { resources = bucket ∷ [] }

abbrev resources : StateFileResources
resources =
    ("arn:aws:s3:::b", record { key = "aws_s3_bucket.b"; state_file_resource = bucket }) ∷ []

abbrev get_object : TerraformStatement
get_object = record {
  resources = record { reference = "IAM"; arn = some "arn:aws:s3:::b/x" } ∷ [];
  actions = "s3:GetObject" ∷ [];
}

abbrev finding : TerraformFinding
finding = record {
  finding_id = "f";
  role = "arn:aws:iam::123456789012:role/app";
  recommendations =
      record { type_name = "IAMInlinePolicy"; statements = get_object ∷ get_object ∷ [] } ∷ [];
}

reference_in_file :
    resource_reference hcl "app" blocks resources role get_object handler
    ≡ (ok "join(\"/\", [aws_s3_bucket.b.arn,\"x\"])", handler)
unfolding resource_reference
reference_in_file = refl

apply_finding_to_block-Replaced_example :
    Replaced hcl Live
      (sample_laws no_disk)
      "app"
      blocks
      resources
      role
      (inline ∷ tags ∷ [])
      2
      (apply_finding_to_block hcl "app" blocks resources role finding handler)
apply_finding_to_block-Replaced_example =
    apply_finding_to_block-Replaced hcl Live (sample_laws no_disk) "app" blocks resources role
      finding handler tt

-- The state file does not have the table, and the block of the settings has the empty address.
abbrev get_item : TerraformStatement
get_item = record {
  resources = record { reference = "IAM"; arn = some "arn:aws:dynamodb:t" } ∷ [];
  actions = "dynamodb:GetItem" ∷ [];
}

resource_reference-unknown_example :
    resource_reference hcl "app" blocks resources role get_item handler ≡ (ok ".arn", handler)
unfolding lookup first_part split same_file_arn
resource_reference-unknown_example =
    resource_reference-unknown hcl "app" blocks resources role get_item "IAM" "arn:aws:dynamodb:t"
      [] (some (in_main settings)) handler refl refl refl refl

get-parse_state_file_example :
    lookup "arn:aws:s3:::b" (parse_state_file_to_state_file_resources state_file)
    ≡ last_owner "arn:aws:s3:::b" (bucket ∷ [])
get-parse_state_file_example = get-parse_state_file state_file "arn:aws:s3:::b" (λ h. cc)

open_file-twice_example :
    (f : ℕ) × (open_file hcl "none.tf" false (open_file hcl "none.tf" false handler).1
      ≡ (ok f, (open_file hcl "none.tf" false handler).1))
unfolding open_file open_and_parse_hcl_file
open_file-twice_example =
    open_file-twice hcl "none.tf" false false handler
      (plain ("failed to read file none.tf because no such file")) refl

abbrev two : AwsIamStatement
two = record {
  sid = "";
  effect = "Allow";
  action = "s3:GetObject" ∷ [];
  principal = none;
  resource = "a" ∷ "b" ∷ [];
}

-- Both resources have the last ARN.
last_arn :
    (map (λ x. x.arn) (terraform_statement two).resources ≡ some "b" ∷ some "b" ∷ [])
    × ((terraform_statement two).actions ≡ "s3:GetObject" ∷ [])
unfolding terraform_statement
last_arn = (refl, refl)

written-traversal_from_address_example :
    written (traversal_from_address "module.ec2.id") ≡ "module.ec2.id"
written-traversal_from_address_example = written-traversal_from_address "module.ec2.id"
