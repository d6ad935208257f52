-- ===== src/Applier/Terraform/References.antt =====
-- How a policy of a role refers to a resource: by its address in the same file, through an output
-- and a variable between modules, or by its ARN.
pub mod Unknown
pub mod Kept
use iamzero.Prelude.{
  String, Bool, true, false, not, ◌&&◌, Option, none, some, List, [], ◌∷◌, ◌==◌, if◌then◌else◌,
}
use iamzero.Prelude.Text.{◌<>◌}
use iamzero.Prelude.Words.{join}
use iamzero.Prelude.Assoc.{lookup}
use iamzero.Prelude.Outcome.{
  Outcome, ok, err, panic, plain, nil_pointer, index_out_of_range, Exec, ◌>>=◌, ◌>>◌, pure, lift,
}
use iamzero.Applier.Terraform.{
  Hcl, FileHandler, Block, BlockData, this_block, parent_module_block, Blocks, file_body,
  StateFileResources, TerraformResource, TerraformStatement,
}
use iamzero.Applier.Terraform.Resources.{get_resource}
use iamzero.Applier.Terraform.Addresses.{generate_variable_name, generate_output_name, split_arn}
use iamzero.Applier.Terraform.Files.{open_file}
use iamzero.Applier.Terraform.Editing.{
  append_output_block_if_not_exist, append_variable_block_if_not_exist,
  append_traversal_attribute_to_block,
}

first_resource : List TerraformResource → Outcome TerraformResource
first_resource [] = panic index_out_of_range
first_resource (r ∷ rs) = ok r

quoted_arn : TerraformResource → Outcome String
quoted_arn r = elim r.arn [ none ↦ panic nil_pointer | some arn ↦ ok ("\"" <> (arn <> "\"")) ]

-- A resource of the same file, with what stands behind the first `/` of its ARN.
unfoldable pub same_file_arn : String → List String → String
unfolding join
same_file_arn address (bucket ∷ object ∷ rest) =
    if object == "*"
    then address <> ".arn"
    else "join(\"/\", [" <> (address <> (".arn,\"" <> (join "/" (object ∷ rest) <> "\"])")))
same_file_arn address _ = address <> ".arn"

-- Split never returns an empty slice.
unfoldable pub first_part : List String → String
first_part [] = ""
first_part (p ∷ ps) = p

unfoldable pub get_block : {F B : Type 0} → Blocks F B → String → Option (Block F B)
unfolding lookup
get_block blocks module_path = lookup module_path blocks

module _ {H F B : Type 0} (hcl : Hcl H F B) (project_path : String) where
  unfoldable pub get_root_file_path : String
  get_root_file_path = hcl.join_path (project_path ∷ "main.tf" ∷ [])

  unfoldable pub is_block_in_root : Block F B → Bool
  unfolding get_root_file_path
  is_block_in_root b = get_root_file_path == (this_block b).path

  -- The output of the resource's module; the name of the output.
  output_for : Block F B → Exec (FileHandler H F) String
  output_for resource =
      let address = (this_block resource).address_in_file in
      open_file hcl (hcl.join_path (hcl.dir (this_block resource).path ∷ "outputs.tf" ∷ [])) true
      >>= λ outputs_file.
          append_output_block_if_not_exist hcl (file_body outputs_file)
            (generate_output_name address "arn") "IAMZero generated output for resource"
            (address <> ".arn")

  -- The variable of the role's module; its name.
  variable_for : Block F B → Block F B → Exec (FileHandler H F) String
  variable_for role resource =
      open_file hcl (hcl.join_path (hcl.dir (this_block role).path ∷ "variables.tf" ∷ [])) true
      >>= λ variables_file.
          append_variable_block_if_not_exist hcl (file_body variables_file)
            (generate_variable_name (this_block resource).address_in_file "arn")
            "IAMZero generated variable for resource"

  output_path : Block F B → String → String
  unfolding join
  output_path parent output_name =
      join "." ("module" ∷ (this_block parent).address_in_file ∷ output_name ∷ [])

  -- A module block that is not there is dereferenced.
  parent_or_panic : Block F B → Outcome (Block F B)
  parent_or_panic b = elim (parent_module_block b) [ none ↦ panic nil_pointer | some p ↦ ok p ]

  parent_or_error : Block F B → Outcome (Block F B)
  parent_or_error b = elim (parent_module_block b) [
    | none ↦
        err (plain ("failed to find module block in file Root file for :" <> (this_block b).path))
    | some p ↦ ok p
  ]

  -- The module block of the role hands the variable the value.
  pass_variable : Outcome (Block F B) → String → String → Exec (FileHandler H F) String
  pass_variable parent variable_name value = lift parent >>= λ p.
      append_traversal_attribute_to_block hcl (this_block p).raw_block variable_name value
      >> pure ("var." <> variable_name)

  -- Both in modules.
  between_modules : Block F B → Block F B → Exec (FileHandler H F) String
  unfolding output_for variable_for output_path parent_or_panic pass_variable
  between_modules role resource = output_for resource >>= λ output_name.
      lift (parent_or_panic resource) >>= λ resource_parent.
      variable_for role resource >>= λ variable_name.
      pass_variable (parent_or_panic role) variable_name (output_path resource_parent output_name)

  -- The resource in a module, the role in the root.
  from_module : Block F B → Exec (FileHandler H F) String
  unfolding output_for output_path parent_or_error
  from_module resource = output_for resource >>= λ output_name.
      lift (parent_or_error resource) >>= λ parent. pure (output_path parent output_name)

  -- The resource in the root, the role in a module.
  into_module : Block F B → Block F B → Exec (FileHandler H F) String
  unfolding variable_for parent_or_error pass_variable
  into_module role resource = variable_for role resource >>= λ variable_name.
      pass_variable (parent_or_error role) variable_name
        ((this_block resource).address_in_file <> ".arn")

  unfoldable pub known_reference :
      Block F B → Block F B → TerraformResource → List String → Exec (FileHandler H F) String
  unfolding same_file_arn is_block_in_root between_modules from_module into_module quoted_arn
  known_reference role resource r parts =
      if (this_block resource).path == (this_block role).path
      then pure (same_file_arn (this_block resource).address_in_file parts)
      else if not (is_block_in_root resource) && not (is_block_in_root role)
      then between_modules role resource
      else if not (is_block_in_root resource) && is_block_in_root role
      then from_module resource
      else if is_block_in_root resource && not (is_block_in_root role)
      then into_module role resource
      else lift (quoted_arn r)

  reference_or_arn :
      Block F B
      → TerraformResource
      → List String
      → Option (Block F B)
      → Exec (FileHandler H F) String
  unfolding known_reference quoted_arn
  reference_or_arn role r parts none = lift (quoted_arn r)
  reference_or_arn role r parts (some resource) = known_reference role resource r parts

  unfoldable pub resource_reference :
      Blocks F B
      → StateFileResources
      → Block F B
      → TerraformStatement
      → Exec (FileHandler H F) String
  unfolding first_resource split_arn reference_or_arn get_block get_resource first_part
  resource_reference blocks resources role statement =
      lift (first_resource statement.resources) >>= λ r. lift (split_arn r) >>= λ parts.
      reference_or_arn role r parts
        (get_block blocks (get_resource resources (first_part parts)).key)
