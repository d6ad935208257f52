-- ===== src/Applier/Terraform/Addresses.antt =====
-- Names and addresses: GenerateVariableName, GenerateOutputName, TraversalFromAddress and SplitArn.
pub mod Written
use iamzero.Prelude.{String, none, some, List, [], ◌∷◌, map}
use iamzero.Prelude.Text.{split}
use iamzero.Prelude.Words.{join, replace_char}
use iamzero.Prelude.Outcome.{Outcome, ok, panic, nil_pointer}
use iamzero.Applier.Terraform.{Traverser, traverse_root, traverse_attr, TerraformResource}

unfoldable pub generate_variable_name : String → String → String
unfolding join replace_char
generate_variable_name resource_name property_type =
    replace_char b'.' "_" (join "_" ("iamzero-variable" ∷ resource_name ∷ property_type ∷ []))

unfoldable pub generate_output_name : String → String → String
unfolding join replace_char
generate_output_name resource_name property_type =
    replace_char b'.' "_" (join "_" ("iamzero-output" ∷ resource_name ∷ property_type ∷ []))

traversal_of : List String → List Traverser
traversal_of [] = []
traversal_of (root ∷ attrs) = traverse_root root ∷ map traverse_attr attrs

unfoldable pub traversal_from_address : String → List Traverser
unfolding traversal_of split
traversal_from_address address = traversal_of (split b'.' address)

unfoldable pub split_arn : TerraformResource → Outcome (List String)
unfolding split
split_arn r = elim r.arn [ none ↦ panic nil_pointer | some arn ↦ ok (split b'/' arn) ]
