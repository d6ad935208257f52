-- ===== src/Applier/Terraform/References/Unknown.antt =====
-- The reference to a resource that the state file does not have.
use iamzero.Prelude.{String, ◌≡◌, refl, ap, ◌∙◌, Option, none, some, List, ◌∷◌, eq_refl}
use iamzero.Prelude.Text.{◌<>◌, split}
use iamzero.Prelude.Assoc.{lookup}
use iamzero.Prelude.Outcome.{ok}
use iamzero.Applier.Terraform.{
  Hcl, FileHandler, Block, this_block, Blocks, StateFileResources, TerraformResource,
  TerraformStatement,
}
use iamzero.Applier.Terraform.Addresses.{split_arn}
use iamzero.Applier.Terraform.Resources.{get_resource}
use iamzero.Applier.Terraform.References.{
  resource_reference, reference_or_arn, known_reference, same_file_arn, first_resource, first_part,
  get_block, quoted_arn,
}

module _ {H F B : Type 0} (hcl : Hcl H F B) (project_path : String) (blocks : Blocks F B)
    (resources : StateFileResources) (role : Block F B) where
  known_reference-same_file :
      (b : Block F B) (r : TerraformResource) (parts : List String) (fh : FileHandler H F)
      → (this_block b).path ≡ (this_block role).path
      → known_reference hcl project_path role b r parts fh
        ≡ (ok (same_file_arn (this_block b).address_in_file parts), fh)
  unfolding known_reference
  known_reference-same_file b r parts fh e = rw (e, eq_refl (this_block role).path) refl

  get_resource-none :
      (arn : String) → lookup arn resources ≡ none → (get_resource resources arn).key ≡ ""
  unfolding get_resource
  get_resource-none arn e = rw (e, get_resource) refl

  resource_reference-first :
      (statement : TerraformStatement) (reference arn : String) (rest : List TerraformResource)
      (fh : FileHandler H F)
      → statement.resources ≡ record { reference = reference; arn = some arn } ∷ rest
      → resource_reference hcl project_path blocks resources role statement fh
        ≡ reference_or_arn hcl project_path role
            (record { reference = reference; arn = some arn })
            (split b'/' arn)
            (get_block blocks (get_resource resources (first_part (split b'/' arn))).key)
            fh
  unfolding resource_reference split_arn first_resource
  resource_reference-first statement reference arn rest fh e =
      ap
        (λ rs.
          resource_reference hcl project_path blocks resources role
            (record { resources = rs; actions = statement.actions }) fh)
        e

  -- A block, if any, of the same file as the role.
  abbrev pub InFileOfRole : Option (Block F B) → Type 0
  InFileOfRole none = Unit
  InFileOfRole (some b) = (this_block b).path ≡ (this_block role).path

  abbrev pub reference_with : Option (Block F B) → String → String
  reference_with none arn = "\"" <> (arn <> "\"")
  reference_with (some b) arn = same_file_arn (this_block b).address_in_file (split b'/' arn)

  reference_or_arn-with :
      (found : Option (Block F B)) (reference arn : String) (fh : FileHandler H F)
      → InFileOfRole found
      → reference_or_arn hcl project_path role
          (record { reference = reference; arn = some arn })
          (split b'/' arn)
          found
          fh
        ≡ (ok (reference_with found arn), fh)
  unfolding reference_or_arn quoted_arn
  reference_or_arn-with none reference arn fh h = refl
  reference_or_arn-with (some b) reference arn fh h =
      known_reference-same_file b (record { reference = reference; arn = some arn })
        (split b'/' arn) fh h

  -- A first resource whose ARN the state file has no resource for is referred to by its quoted ARN
  -- if no block has the empty address.  If one does, in the file of the role, then the reference
  -- is made of the address of that block instead.
  pub resource_reference-unknown :
      (statement : TerraformStatement) (reference arn : String) (rest : List TerraformResource)
      (found : Option (Block F B)) (fh : FileHandler H F)
      → statement.resources ≡ record { reference = reference; arn = some arn } ∷ rest
      → lookup (first_part (split b'/' arn)) resources ≡ none
      → lookup "" blocks ≡ found
      → InFileOfRole found
      → resource_reference hcl project_path blocks resources role statement fh
        ≡ (ok (reference_with found arn), fh)
  unfolding get_block
  resource_reference-unknown statement reference arn rest found fh s e q h =
      resource_reference-first statement reference arn rest fh s
      ∙ ap
          (λ o.
            reference_or_arn hcl project_path role
              (record { reference = reference; arn = some arn }) (split b'/' arn) o fh)
          (ap (get_block blocks) (get_resource-none (first_part (split b'/' arn)) e) ∙ q)
      ∙ reference_or_arn-with found reference arn fh h
