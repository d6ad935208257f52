-- ===== src/Applier/Terraform.antt =====
-- pkg/applier/terraform/terraform.go: its data, and the library hclwrite that it edits files with.
--
-- A file or a block of hclwrite is a pointer (F, B) to what a heap H holds; the type and the labels
-- of a block are not changed by this code, so they go without the heap.
pub mod Files
pub mod Findings
pub mod Resources
pub mod Addresses
pub mod Frames
pub mod Editing
pub mod Modules
pub mod References
pub mod Policies
pub mod Plan
pub mod State
pub mod Operations
pub mod Samples
mod Tests
use iamzero.Prelude.{String, Bool, Option, none, some, List, ◌⊎◌}

pub record StateFileAttribute : Type 0 where
  pub arn : String
  pub policy_arn : String
  pub id : String
  pub roles : List String

abbrev pub StateFileResourceInstance : Type 0
StateFileResourceInstance = StateFileAttribute

pub record StateFileResource : Type 0 where
  pub type_name : String
  pub name : String
  pub module_name : Option String
  pub instances : List StateFileResourceInstance

pub record StateFile : Type 0 where
  pub resources : List StateFileResource

pub record StateFileResourceRef : Type 0 where
  pub key : String
  pub state_file_resource : StateFileResource

-- A map, with its keys in the order in which they were first written.
abbrev pub StateFileResources : Type 0
StateFileResources = List (String × StateFileResourceRef)

pub record TerraformResource : Type 0 where
  pub reference : String
  pub arn : Option String

pub record TerraformStatement : Type 0 where
  pub resources : List TerraformResource
  pub actions : List String

pub record TerraformRecommendation : Type 0 where
  pub type_name : String
  pub statements : List TerraformStatement

pub record TerraformFinding : Type 0 where
  pub finding_id : String
  pub role : String
  pub recommendations : List TerraformRecommendation

-- hcl.Traversal: a root and attributes of it.
pub data Traverser : Type 0 where
  traverse_root : String → Traverser
  traverse_attr : String → Traverser

pub data ReadResult : Type 0 where
  contents : String → ReadResult
  missing : String → ReadResult
  failed : String → ReadResult

pub data Body (F B : Type 0) : Type 0 where
  file_body : F → Body F B
  block_body : B → Body F B

-- What the code calls: hclwrite, the disk, package path, which is also path/filepath where `/` is
-- the separator, and the encoding of a list of texts and of a number.
pub record Hcl (H F B : Type 0) : Type 0 where
  pub new_empty_file : H → F × H
  pub parse_config : String → String → H → (F × H) ⊎ String
  pub blocks : Body F B → H → List B
  pub first_matching_block : Body F B → String → List String → H → Option B
  pub block_type : B → String
  pub labels : B → List String
  pub attribute_text : Body F B → String → H → Option String
  pub set_attribute_raw : Body F B → String → String → H → H
  pub set_attribute_string : Body F B → String → String → H → H
  pub set_attribute_traversal : Body F B → String → List Traverser → H → H
  pub new_block : String → List String → H → B × H
  pub append_block : Body F B → B → H → H
  pub append_newline : Body F B → H → H
  pub remove_block : Body F B → B → H → H
  pub formatted : F → H → String
  pub read_file : String → ReadResult
  pub clean : String → String
  pub dir : String → String
  pub join_path : List String → String
  pub marshal_strings : List String → String

-- The files that are open, by their paths, and what hclwrite holds for them.
pub record FileHandler (H F : Type 0) : Type 0 where
  pub heap : H
  pub hcl_files : List (String × F)

pub record BlockData (F B : Type 0) : Type 0 where
  pub file : F
  pub raw_block : B
  pub path : String
  pub address_in_file : String

-- A block, with the block of the module that it stands in where that is not the root.
pub data Block (F B : Type 0) : Type 0 where
  in_root : BlockData F B → Block F B
  in_module : Block F B → BlockData F B → Block F B

abbrev pub this_block : {F B : Type 0} → Block F B → BlockData F B
this_block (in_root b) = b
this_block (in_module parent b) = b

abbrev pub parent_module_block : {F B : Type 0} → Block F B → Option (Block F B)
parent_module_block (in_root b) = none
parent_module_block (in_module parent b) = some parent

abbrev pub Blocks : Type 0 → Type 0 → Type 0
Blocks F B = List (String × Block F B)

pub record TerraformIamPolicyApplier (F B : Type 0) : Type 0 where
  pub project_path : String
  pub finding : Option TerraformFinding
  pub blocks : Option (Blocks F B)
  pub state_file_resources : Option StateFileResources
