-- ===== src/Applier/Terraform/Editing/Kept.antt =====
-- The edits that leave the blocks inside every other block as they are.
use iamzero.Prelude.{String, refl, Option, none, some, [], ◌∷◌}
use iamzero.Prelude.Outcome.{ok, Exec, ◌>>◌, pure, lift}
use iamzero.Applier.Terraform.{Hcl, FileHandler, file_body, block_body}
use iamzero.Applier.Terraform.Addresses.{traversal_from_address}
use iamzero.Applier.Terraform.Frames.{
  HclLaws, Keeps, Keeps-bind, Keeps-lift, edit-Keeps, make_block-Keeps, blocks_of-Keeps,
}
use iamzero.Applier.Terraform.Editing.{
  append_traversal_attribute_to_block, append_described_block, append_variable_block,
  append_output_block, append_variable_block_if_not_exist, append_output_block_if_not_exist,
  first_label, find_output, find_block_with_matching_label, set_inline_policy_iam_policy,
}

module _ {H F B : Type 0} (hcl : Hcl H F B) (Live : B → H → Type 0) (laws : HclLaws hcl Live)
    (b : B) where
  then-Keeps :
      {A C : Type 0} (m : Exec (FileHandler H F) A) (n : Exec (FileHandler H F) C)
      → Keeps hcl Live laws b m
      → Keeps hcl Live laws b n
      → Keeps hcl Live laws b (m >> n)
  then-Keeps m n p q = Keeps-bind hcl Live laws b m (λ _. n) p (λ _. q)

  pub append_traversal_attribute_to_block-Keeps :
      (x : B) (name path : String)
      → Keeps hcl Live laws b (append_traversal_attribute_to_block hcl x name path)
  unfolding append_traversal_attribute_to_block
  append_traversal_attribute_to_block-Keeps x name path =
      edit-Keeps hcl Live laws b _
        (laws.set_attribute_traversal-Same b (block_body x) name (traversal_from_address path))

  pub set_inline_policy_iam_policy-Keeps :
      (x : B) (action resource name : String)
      → Keeps hcl Live laws b (set_inline_policy_iam_policy hcl x action resource name)
  unfolding set_inline_policy_iam_policy
  set_inline_policy_iam_policy-Keeps x action resource name =
      then-Keeps _ _
        (edit-Keeps hcl Live laws b _ (laws.set_attribute_raw-Same b (block_body x) "policy" _))
        (edit-Keeps hcl Live laws b _ (laws.set_attribute_string-Same b (block_body x) "name" name))

  append_described_block-Keeps :
      (f : F) (type_name name attribute raw description : String)
      → Keeps hcl Live laws b
          (append_described_block hcl (file_body f) type_name name attribute raw description)
  unfolding append_described_block
  append_described_block-Keeps f type_name name attribute raw description =
      then-Keeps _ _ (edit-Keeps hcl Live laws b _ (laws.append_newline-Same b (file_body f))) (
        Keeps-bind hcl Live laws b _ _ (make_block-Keeps hcl Live laws b type_name (name ∷ [])) λ x.
          then-Keeps _ _
            (then-Keeps _ _
              (then-Keeps _ _
                (edit-Keeps hcl Live laws b _
                  (laws.set_attribute_raw-Same b (block_body x) attribute raw))
                (edit-Keeps hcl Live laws b _
                  (laws.set_attribute_string-Same b (block_body x) "description" description)))
              (edit-Keeps hcl Live laws b _ (laws.append_block-Same b f x)))
            (edit-Keeps hcl Live laws b _ (laws.append_newline-Same b (file_body f))))

  variable-Keeps :
      (f : F) (name description : String) (o : Option B)
      → Keeps hcl Live laws b (elim o [
        | some x ↦ pure name
        | none ↦ append_variable_block hcl (file_body f) name description >> pure name
      ])
  unfolding append_variable_block
  variable-Keeps f name description (some x) = Keeps-lift hcl Live laws b (ok name)
  variable-Keeps f name description none =
      then-Keeps _ _ (append_described_block-Keeps f "variable" name "type" "string" description)
        (Keeps-lift hcl Live laws b (ok name))

  pub append_variable_block_if_not_exist-Keeps :
      (f : F) (name description : String)
      → Keeps hcl Live laws b
          (append_variable_block_if_not_exist hcl (file_body f) name description)
  unfolding append_variable_block_if_not_exist
  append_variable_block_if_not_exist-Keeps f name description =
      Keeps-bind hcl Live laws b _ _ (blocks_of-Keeps hcl Live laws b (file_body f))
        λ bs. variable-Keeps f name description (find_block_with_matching_label hcl bs name)

  output-Keeps :
      (f : F) (name description value : String) (o : Option B)
      → Keeps hcl Live laws b (elim o [
        | some x ↦ lift (first_label hcl x)
        | none ↦ append_output_block hcl (file_body f) name description value >> pure name
      ])
  unfolding append_output_block
  output-Keeps f name description value (some x) = Keeps-lift hcl Live laws b (first_label hcl x)
  output-Keeps f name description value none =
      then-Keeps _ _ (append_described_block-Keeps f "output" name "value" value description)
        (Keeps-lift hcl Live laws b (ok name))

  find_output-Keeps :
      (f : F) (value : String) → Keeps hcl Live laws b (find_output hcl (file_body f) value)
  unfolding find_output
  find_output-Keeps f value = record { at_handler = λ fh l. (l, refl) }

  pub append_output_block_if_not_exist-Keeps :
      (f : F) (name description value : String)
      → Keeps hcl Live laws b
          (append_output_block_if_not_exist hcl (file_body f) name description value)
  unfolding append_output_block_if_not_exist
  append_output_block_if_not_exist-Keeps f name description value =
      Keeps-bind hcl Live laws b _ _ (find_output-Keeps f value)
        (output-Keeps f name description value)
