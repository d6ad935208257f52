-- ===== src/Applier/Terraform/References/Kept.antt =====
-- Finding a reference leaves the blocks inside the role's block as they are.
use iamzero.Prelude.{String, Bool, not, ◌&&◌, Option, none, some, List, ◌==◌, if◌then◌else◌}
use iamzero.Prelude.Outcome.{Outcome, ok, Exec, ◌>>=◌, lift}
use iamzero.Applier.Terraform.{
  Hcl, FileHandler, Block, this_block, Blocks, StateFileResources, TerraformResource,
  TerraformStatement,
}
use iamzero.Applier.Terraform.Resources.{get_resource}
use iamzero.Applier.Terraform.Addresses.{split_arn}
use iamzero.Applier.Terraform.Frames.{
  HclLaws, Keeps, Keeps-bind, Keeps-lift, Keeps-if, open_file-Keeps,
}
use iamzero.Applier.Terraform.Editing.Kept.{
  append_output_block_if_not_exist-Keeps, append_variable_block_if_not_exist-Keeps,
  append_traversal_attribute_to_block-Keeps,
}
use iamzero.Applier.Terraform.References.{
  output_for, variable_for, pass_variable, between_modules, from_module, into_module,
  known_reference, reference_or_arn, resource_reference, first_resource, quoted_arn, same_file_arn,
  is_block_in_root, get_block, first_part,
}

module _ {H F B : Type 0} (hcl : Hcl H F B) (Live : B → H → Type 0) (laws : HclLaws hcl Live)
    (b : B) (project_path : String) where
  abbrev Kps : {A : Type 0} → Exec (FileHandler H F) A → Type 0
  Kps m = Keeps hcl Live laws b m

  bind :
      {A C : Type 0} (m : Exec (FileHandler H F) A) (f : A → Exec (FileHandler H F) C)
      → Kps m
      → ((a : A) → Kps (f a))
      → Kps (m >>= f)
  bind m f p q = Keeps-bind hcl Live laws b m f p q

  lifted : {A : Type 0} (r : Outcome A) → Kps (lift r)
  lifted r = Keeps-lift hcl Live laws b r

  output_for-Keeps : (resource : Block F B) → Kps (output_for hcl project_path resource)
  unfolding output_for
  output_for-Keeps resource =
      bind _ _ (open_file-Keeps hcl Live laws b _ _)
        λ f. append_output_block_if_not_exist-Keeps hcl Live laws b f _ _ _

  variable_for-Keeps :
      (role resource : Block F B) → Kps (variable_for hcl project_path role resource)
  unfolding variable_for
  variable_for-Keeps role resource =
      bind _ _ (open_file-Keeps hcl Live laws b _ _)
        λ f. append_variable_block_if_not_exist-Keeps hcl Live laws b f _ _

  pass_variable-Keeps :
      (parent : Outcome (Block F B)) (name value : String)
      → Kps (pass_variable hcl project_path parent name value)
  unfolding pass_variable
  pass_variable-Keeps parent name value = bind _ _ (lifted parent) λ p.
      bind _ _
        (append_traversal_attribute_to_block-Keeps hcl Live laws b (this_block p).raw_block name
          value)
        λ _. lifted _

  between_modules-Keeps :
      (role resource : Block F B) → Kps (between_modules hcl project_path role resource)
  unfolding between_modules
  between_modules-Keeps role resource = bind _ _ (output_for-Keeps resource) λ o.
      bind _ _ (lifted _)
        λ p. bind _ _ (variable_for-Keeps role resource) λ v. pass_variable-Keeps _ v _

  from_module-Keeps : (resource : Block F B) → Kps (from_module hcl project_path resource)
  unfolding from_module
  from_module-Keeps resource =
      bind _ _ (output_for-Keeps resource) λ o. bind _ _ (lifted _) λ p. lifted (ok _)

  into_module-Keeps : (role resource : Block F B) → Kps (into_module hcl project_path role resource)
  unfolding into_module
  into_module-Keeps role resource =
      bind _ _ (variable_for-Keeps role resource) λ v. pass_variable-Keeps _ v _

  branch :
      {A : Type 0} (t : Bool) (m n : Exec (FileHandler H F) A)
      → Kps m
      → Kps n
      → Kps (if t then m else n)
  branch t m n p q = Keeps-if hcl Live laws b t m n p q

  known_reference-Keeps :
      (role resource : Block F B) (r : TerraformResource) (parts : List String)
      → Kps (known_reference hcl project_path role resource r parts)
  unfolding known_reference
  known_reference-Keeps role resource r parts =
      let in_root : Block F B → Bool = is_block_in_root hcl project_path in
      branch ((this_block resource).path == (this_block role).path) _ _
        (lifted (ok (same_file_arn (this_block resource).address_in_file parts)))
        (branch (not (in_root resource) && not (in_root role)) _ _
          (between_modules-Keeps role resource)
          (branch (not (in_root resource) && in_root role) _ _ (from_module-Keeps resource) (
            branch (in_root resource && not (in_root role)) _ _ (into_module-Keeps role resource)
              (lifted (quoted_arn r)))))

  reference_or_arn-Keeps :
      (role : Block F B) (r : TerraformResource) (parts : List String) (o : Option (Block F B))
      → Kps (reference_or_arn hcl project_path role r parts o)
  unfolding reference_or_arn
  reference_or_arn-Keeps role r parts none = lifted (quoted_arn r)
  reference_or_arn-Keeps role r parts (some resource) = known_reference-Keeps role resource r parts

  pub resource_reference-Keeps :
      (blocks : Blocks F B) (resources : StateFileResources) (role : Block F B)
      (statement : TerraformStatement)
      → Kps (resource_reference hcl project_path blocks resources role statement)
  unfolding resource_reference
  resource_reference-Keeps blocks resources role statement =
      bind _ _ (lifted (first_resource statement.resources)) λ r.
        bind _ _ (lifted (split_arn r)) λ parts.
          reference_or_arn-Keeps role r parts
            (get_block blocks (get_resource resources (first_part parts)).key)
