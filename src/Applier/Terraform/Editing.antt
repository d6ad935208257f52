-- ===== src/Applier/Terraform/Editing.antt =====
-- The edits of blocks: appended variables and outputs, the policy of an inline_policy block, and
-- the roles of a policy attachment.
pub mod Roles
pub mod Kept
use iamzero.Prelude.{
  String, Bool, true, false, not, ◌&&◌, ◌||◌, Option, none, some, List, [], ◌∷◌, ◌==◌,
  if◌then◌else◌, select, find_first,
}
use iamzero.Prelude.Text.{◌<>◌, split}
use iamzero.Prelude.Words.{join, trim_cutset, contains}
use iamzero.Prelude.Outcome.{
  Outcome, ok, err, panic, nil_pointer, index_out_of_range, Exec, ◌>>=◌, ◌>>◌, pure, lift,
}
use iamzero.Applier.Terraform.{Hcl, FileHandler, Body, block_body, StateFileResource}
use iamzero.Applier.Terraform.Addresses.{traversal_from_address}
use iamzero.Applier.Terraform.Files.{edit, make_block, blocks_of}

-- Whether an element of the list of roles is the role: its address, or its quoted identifier.
unfoldable pub is_role : StateFileResource → String → Bool
unfolding contains
is_role role trimmed =
    contains trimmed (role.type_name <> ("." <> role.name))
    || elim role.instances [ i ∷ [] ↦ trimmed == "\"" <> (i.id <> "\"") | _ ↦ false ]

filtered_roles : StateFileResource → List String → List String
unfolding trim_cutset is_role
filtered_roles role [] = []
filtered_roles role (r ∷ roles) =
    if not (is_role role (trim_cutset " " r))
    then trim_cutset " " r ∷ filtered_roles role roles
    else filtered_roles role roles

unfoldable pub without_role : StateFileResource → String → String
unfolding trim_cutset split filtered_roles join
without_role role line =
    "[" <> (join "," (filtered_roles role (split b',' (trim_cutset " []" line))) <> "]")

policy_document : String → String → String
policy_document action resource =
    "jsonencode({\n        Version = \"2012-10-17\"\n        Statement = [\n          {\n            Action   = "
    <> (action
        <> ("\n            Effect   = \"Allow\"\n            Resource = "
            <> (resource <> "\n          },\n        ]\n      })")))

-- Expr() of an attribute that is not there panics.
read_of : {S : Type 0} → S → Option String → Outcome String × S
read_of s none = (panic nil_pointer, s)
read_of s (some text) = (ok text, s)

module _ {H F B : Type 0} (hcl : Hcl H F B) where
  unfoldable pub is_block_inline_policy : B → Bool
  is_block_inline_policy b = hcl.block_type b == "inline_policy"

  first_label_is : String → B → Bool
  first_label_is name b = elim (hcl.labels b) [ [] ↦ false | value ∷ _ ↦ value == name ]

  unfoldable pub find_block_with_matching_label : List B → String → Option B
  unfolding first_label_is
  find_block_with_matching_label bs name = find_first (first_label_is name) bs

  value_is : H → String → B → Bool
  unfolding trim_cutset
  value_is h value_string b = elim (hcl.attribute_text (block_body b) "value" h) [
    | none ↦ false
    | some value ↦ trim_cutset " " value == value_string
  ]

  unfoldable pub find_block_with_matching_value_attribute : H → List B → String → Option B
  unfolding value_is
  find_block_with_matching_value_attribute h bs value = find_first (value_is h value) bs

  unfoldable pub append_traversal_attribute_to_block :
      B → String → String → Exec (FileHandler H F) (Unit {0})
  unfolding edit traversal_from_address
  append_traversal_attribute_to_block b name path =
      edit hcl (hcl.set_attribute_traversal (block_body b) name (traversal_from_address path))

  -- A block of a name with one raw attribute and a description, between two new lines.
  append_described_block :
      Body F B → String → String → String → String → String → Exec (FileHandler H F) (Unit {0})
  unfolding edit make_block
  append_described_block body type_name name attribute raw description =
      edit hcl (hcl.append_newline body)
      >> (make_block hcl type_name (name ∷ []) >>= λ b.
          edit hcl (hcl.set_attribute_raw (block_body b) attribute raw)
          >> edit hcl (hcl.set_attribute_string (block_body b) "description" description)
          >> edit hcl (hcl.append_block body b)
          >> edit hcl (hcl.append_newline body))

  unfoldable pub append_variable_block :
      Body F B → String → String → Exec (FileHandler H F) (Unit {0})
  unfolding append_described_block
  append_variable_block body name description =
      append_described_block body "variable" name "type" "string" description

  unfoldable pub append_output_block :
      Body F B → String → String → String → Exec (FileHandler H F) (Unit {0})
  unfolding append_described_block
  append_output_block body name description value =
      append_described_block body "output" name "value" value description

  unfoldable pub append_variable_block_if_not_exist :
      Body F B → String → String → Exec (FileHandler H F) String
  unfolding blocks_of find_block_with_matching_label append_variable_block
  append_variable_block_if_not_exist body name description = blocks_of hcl body >>= λ bs.
      elim (find_block_with_matching_label bs name) [
        | some b ↦ pure name
        | none ↦ append_variable_block body name description >> pure name
      ]

  -- The first label of a block without labels panics.
  first_label : B → Outcome String
  first_label b = elim (hcl.labels b) [ [] ↦ panic index_out_of_range | l ∷ _ ↦ ok l ]

  find_output : Body F B → String → Exec (FileHandler H F) (Option B)
  unfolding find_block_with_matching_value_attribute
  find_output body value fh =
      (ok (find_block_with_matching_value_attribute fh.heap (hcl.blocks body fh.heap) value), fh)

  unfoldable pub append_output_block_if_not_exist :
      Body F B → String → String → String → Exec (FileHandler H F) String
  unfolding find_output append_output_block first_label
  append_output_block_if_not_exist body name description value = find_output body value >>= λ found.
      elim found [
        | some b ↦ lift (first_label b)
        | none ↦ append_output_block body name description value >> pure name
      ]

  unfoldable pub set_inline_policy_iam_policy :
      B → String → String → String → Exec (FileHandler H F) (Unit {0})
  unfolding edit policy_document
  set_inline_policy_iam_policy b action resource name =
      edit hcl (hcl.set_attribute_raw (block_body b) "policy" (policy_document action resource))
      >> edit hcl (hcl.set_attribute_string (block_body b) "name" name)

  -- The text of the attribute `roles`.
  roles_text : B → Exec (FileHandler H F) String
  unfolding read_of
  roles_text b fh = read_of fh (hcl.attribute_text (block_body b) "roles" fh.heap)

  unfoldable pub remove_policy_attachment_role :
      B → StateFileResource → Exec (FileHandler H F) (Unit {0})
  unfolding roles_text without_role edit
  remove_policy_attachment_role b role = roles_text b >>= λ line.
      edit hcl (hcl.set_attribute_raw (block_body b) "roles" (without_role role line))
