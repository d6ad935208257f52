-- ===== src/Applier/Terraform/Policies.antt =====
-- ApplyFindingToBlock: the inline policies of a role are replaced by those of the finding.
pub mod Replaced
use iamzero.Prelude.{ℕ, String, List, [], ◌∷◌, ◌++◌, ◌+◌, select}
use iamzero.Prelude.Text.{◌<>◌}
use iamzero.Prelude.Digits.{decimal}
use iamzero.Prelude.Outcome.{Outcome, ok, Exec, ◌>>=◌, ◌>>◌, pure}
use iamzero.Applier.Terraform.{
  Hcl, FileHandler, Block, this_block, Blocks, block_body, StateFileResources, TerraformStatement,
  TerraformRecommendation, TerraformFinding,
}
use iamzero.Applier.Terraform.Files.{edit, make_block, blocks_of}
use iamzero.Applier.Terraform.Editing.{is_block_inline_policy, set_inline_policy_iam_policy}
use iamzero.Applier.Terraform.References.{resource_reference}

module _ {H F B : Type 0} (hcl : Hcl H F B) (project_path : String) (blocks : Blocks F B)
    (resources : StateFileResources) (role : Block F B) where
  unfoldable pub new_inline_policy : ℕ → TerraformStatement → Exec (FileHandler H F) B
  unfolding make_block resource_reference set_inline_policy_iam_policy decimal
  new_inline_policy i statement = make_block hcl "inline_policy" [] >>= λ b.
      resource_reference hcl project_path blocks resources role statement >>= λ arn.
      set_inline_policy_iam_policy hcl b (hcl.marshal_strings statement.actions) arn
        ("iamzero-generated-iam-policy-" <> decimal i)
      >> pure b

  -- The statements of one recommendation, numbered.
  unfoldable pub new_inline_policies :
      ℕ → List TerraformStatement → List B → Exec (FileHandler H F) (List B)
  unfolding new_inline_policy
  new_inline_policies i [] made = pure made
  new_inline_policies i (statement ∷ statements) made =
      new_inline_policy i statement >>= λ b. new_inline_policies (i + 1) statements (made ++ b ∷ [])

  unfoldable pub recommended_policies :
      List TerraformRecommendation → List B → Exec (FileHandler H F) (List B)
  unfolding new_inline_policies
  recommended_policies [] made = pure made
  recommended_policies (r ∷ rs) made =
      new_inline_policies 0 r.statements made >>= λ made'. recommended_policies rs made'

  unfoldable pub remove_blocks : List B → Exec (FileHandler H F) (Unit {0})
  unfolding edit
  remove_blocks [] = pure tt
  remove_blocks (b ∷ bs) =
      edit hcl (hcl.remove_block (block_body (this_block role).raw_block) b) >> remove_blocks bs

  unfoldable pub append_blocks : List B → Exec (FileHandler H F) (Unit {0})
  unfolding edit
  append_blocks [] = pure tt
  append_blocks (b ∷ bs) =
      edit hcl (hcl.append_block (block_body (this_block role).raw_block) b) >> append_blocks bs

  unfoldable pub apply_finding_to_block : TerraformFinding → Exec (FileHandler H F) (Unit {0})
  unfolding blocks_of is_block_inline_policy recommended_policies remove_blocks append_blocks
  apply_finding_to_block finding =
      blocks_of hcl (block_body (this_block role).raw_block) >>= λ nested.
      recommended_policies finding.recommendations [] >>= λ new.
      remove_blocks (select (is_block_inline_policy hcl) nested) >> append_blocks new
