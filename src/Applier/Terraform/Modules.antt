-- ===== src/Applier/Terraform/Modules.antt =====
-- TerraformDFS: the blocks of main.tf and of the main.tf of each local module, by their addresses.
-- Each file that is opened takes one unit of fuel; where it is used up the Go stack has overflowed.
pub mod Ends
mod Tests
use iamzero.Prelude.{
  ℕ, zero, suc, String, Bool, true, false, ◌||◌, Option, none, some, List, [], ◌∷◌, ◌++◌, ◌==◌,
  if◌then◌else◌,
}
use iamzero.Prelude.Words.{join, trim_cutset, has_prefix}
use iamzero.Prelude.Assoc.{insert}
use iamzero.Prelude.Outcome.{Outcome, ok, err, panic, stack_overflow, Exec, ◌>>=◌, ◌>>◌, pure}
use iamzero.Applier.Terraform.{
  Hcl, FileHandler, BlockData, Block, in_root, in_module, Blocks, Body, file_body, block_body,
}
use iamzero.Applier.Terraform.Files.{open_file}

unfoldable pub clean_attribute_expression : String → String
unfolding trim_cutset
clean_attribute_expression text = trim_cutset " \"" text

-- Labels behind the path of a module, if there is one.
unfoldable pub address_under : String → List String → String
unfolding join
address_under module_path names =
    if module_path == "" then join "." names else join "." (module_path ∷ names)

make_data : {F B : Type 0} → Option (Block F B) → BlockData F B → Block F B
make_data none b = in_root b
make_data (some parent) b = in_module parent b

-- The blocks that have been found, and the open files.
pub record Search (H F B : Type 0) : Type 0 where
  pub found : Blocks F B
  pub handler : FileHandler H F

module _ {H F B : Type 0} (hcl : Hcl H F B) where
  local_source : Option String → Option String
  unfolding clean_attribute_expression has_prefix
  local_source none = none
  local_source (some text) =
      let source = clean_attribute_expression text in
      if has_prefix source "./" || has_prefix source "../" then some source else none

  unfoldable pub module_block_has_local_source : H → B → Option String
  unfolding local_source
  module_block_has_local_source h b =
      if hcl.block_type b == "module"
      then local_source (hcl.attribute_text (block_body b) "source" h)
      else none

  unfoldable pub block_key : String → B → String
  unfolding address_under
  block_key module_path b =
      if hcl.block_type b == "module"
      then address_under module_path (hcl.block_type b ∷ hcl.labels b)
      else address_under module_path (hcl.labels b)

  unfoldable pub block_at : String → F → Option (Block F B) → B → Block F B
  unfolding make_data join
  block_at file_path file parent b = make_data parent (record {
    file = file;
    raw_block = b;
    path = file_path;
    address_in_file = join "." (hcl.labels b);
  })

  unfoldable pub child_path : String → String → String
  child_path file_path directory = hcl.join_path (hcl.dir file_path ∷ directory ∷ "main.tf" ∷ [])

  open_in_search : String → Exec (Search H F B) F
  unfolding open_file
  open_in_search file_path s =
      let (r, fh) = open_file hcl file_path false s.handler in (r, record s { handler = fh })

  put_block : String → Block F B → Exec (Search H F B) (Unit {0})
  unfolding insert
  put_block key b s = (ok tt, record s { found = insert key b s.found })

  source_of : B → Exec (Search H F B) (Option String)
  unfolding module_block_has_local_source
  source_of b s = (ok (module_block_has_local_source s.handler.heap b), s)

  body_blocks : F → Exec (Search H F B) (List B)
  body_blocks file s = (ok (hcl.blocks (file_body file) s.handler.heap), s)

  -- `visit` is the search of the file of a module, under its path and its block.
  module _ (visit : String → String → Option (Block F B) → Exec (Search H F B) (Unit {0})) where
    visit_source : String → String → Block F B → Option String → Exec (Search H F B) (Unit {0})
    unfolding child_path
    visit_source file_path key b none = pure tt
    visit_source file_path key b (some directory) =
        visit (child_path file_path directory) key (some b)

    add_block : String → String → F → Option (Block F B) → B → Exec (Search H F B) (Unit {0})
    unfolding block_key block_at source_of visit_source put_block
    add_block file_path module_path file parent b =
        let bl = block_at file_path file parent b in
        let key = block_key module_path b in
        source_of b >>= λ source. visit_source file_path key bl source >> put_block key bl

    add_blocks : String → String → F → Option (Block F B) → List B → Exec (Search H F B) (Unit {0})
    unfolding add_block
    add_blocks file_path module_path file parent [] = pure tt
    add_blocks file_path module_path file parent (b ∷ bs) =
        add_block file_path module_path file parent b
        >> add_blocks file_path module_path file parent bs

  unfoldable pub terraform_dfs :
      ℕ → String → String → Option (Block F B) → Exec (Search H F B) (Unit {0})
  unfolding open_in_search body_blocks add_blocks
  terraform_dfs zero file_path module_path parent s = (panic stack_overflow, s)
  terraform_dfs (suc fuel) file_path module_path parent s =
      (open_in_search file_path >>= λ file. body_blocks file >>= λ bs.
      add_blocks (terraform_dfs fuel) file_path module_path file parent bs)
        s

  -- Blocks.Init: the search from the root.
  unfoldable pub init_blocks : ℕ → String → Exec (Search H F B) (Unit {0})
  unfolding terraform_dfs
  init_blocks fuel root_file_path = terraform_dfs fuel root_file_path "" none
