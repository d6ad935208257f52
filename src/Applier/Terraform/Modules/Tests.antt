-- ===== src/Applier/Terraform/Modules/Tests.antt =====
-- A root with one local module, and the search of its blocks.
use iamzero.Prelude.{
  ℕ, String, ◌≡◌, refl, sym, subst, ◌∙◌, Bool, true, false, none, some, List, [], ◌∷◌, ◌==◌, arith,
  All, if◌then◌else◌, inl, inr, Option-cases, eq_iff,
}
use iamzero.Prelude.Assoc.{lookup, insert, lookup-insert}
use iamzero.Prelude.Outcome.{Outcome, ok, err, panic}
use iamzero.Applier.Terraform.{Hcl, FileHandler, Body, file_body, contents}
use iamzero.Applier.Terraform.Files.{enter_file, open_and_parse_hcl_file}
use iamzero.Applier.Terraform.Files.Reopened.{open_file-present, open_file-absent}
use iamzero.Applier.Terraform.Modules.{terraform_dfs, init_blocks, child_path}
use iamzero.Applier.Terraform.Modules.Ends.{terraform_dfs-Ends, Ends, Opens, Falls}

abbrev root : String
root = "app/main.tf"

-- A file is the root or not, and only the root has a block.
abbrev inside : Body Bool Bool → List Bool
inside (file_body true) = true ∷ []
inside _ = []

abbrev two_files : Hcl (Unit {0}) Bool Bool
two_files = record {
  new_empty_file = λ h. (false, h);
  parse_config = λ src path h. inl (src == root, h);
  blocks = λ body h. inside body;
  first_matching_block = λ body type_name ls h. none;
  block_type = λ b. "module";
  labels = λ b. "ec2" ∷ [];
  attribute_text = λ body name h. some "\"./ec2\"";
  set_attribute_raw = λ body name text h. h;
  set_attribute_string = λ body name text h. h;
  set_attribute_traversal = λ body name path h. h;
  new_block = λ type_name ls h. (false, h);
  append_block = λ body b h. h;
  append_newline = λ body h. h;
  remove_block = λ body b h. h;
  formatted = λ f h. "";
  read_file = λ path. contents path;
  clean = λ path. path;
  dir = λ path. "app";
  join_path = λ parts. "app/ec2/main.tf";
  marshal_strings = λ ss. "";
}

-- The open files are what the disk holds at their paths.
abbrev FromDisk : FileHandler (Unit {0}) Bool → Type 0
FromDisk fh = (path : String) (f : Bool) → lookup path fh.hcl_files ≡ some f → f ≡ (path == root)

abbrev rank : String → ℕ
rank path = if path == root then 1 else 0

falls :
    (path : String) (f : Bool)
    → f ≡ (path == root)
    → All (Falls two_files FromDisk rank path) (inside (file_body f))
unfolding child_path
falls path true e = ((λ fh d g h. rw (sym e) (omega arith)), tt)
falls path false e = tt

insert-FromDisk :
    (fh : FileHandler (Unit {0}) Bool) (path : String)
    → FromDisk fh
    → FromDisk (record { heap = tt; hcl_files = insert path (path == root) fh.hcl_files })
insert-FromDisk fh path g p f h =
    ground (arith, eq_iff path p, lookup-insert path p (path == root) fh.hcl_files, g p f)

-- What `Opens` asks of the result of an opening.
abbrev Opened : String → Outcome Bool × FileHandler (Unit {0}) Bool → Type 0
Opened path (ok f, fh) =
    FromDisk fh × All (Falls two_files FromDisk rank path) (inside (file_body f))
Opened path (err e, fh) = Unit
Opened path (panic p, fh) = Unit

opens : Opens two_files FromDisk rank
unfolding enter_file open_and_parse_hcl_file
opens path f fh fh' g e = elim (Option-cases (lookup path fh.hcl_files)) [
  | inl q ↦
      subst (Opened path) (sym (open_file-absent two_files path false fh q) ∙ e)
        (insert-FromDisk fh path g, falls path (path == root) refl)
  | inr (x, q) ↦
      subst (Opened path) (sym (open_file-present two_files path false fh x q) ∙ e)
        (g, falls path x (g path x q))
]

terraform_dfs-Ends_example : Ends two_files FromDisk rank (
    terraform_dfs two_files 2 root "" none
      (record { found = []; handler = record { heap = tt; hcl_files = [] } }))
unfolding lookup
terraform_dfs-Ends_example =
    terraform_dfs-Ends two_files FromDisk rank opens 2 root "" none
      (record { found = []; handler = record { heap = tt; hcl_files = [] } }) (omega arith)
      (λ path f h. cc)

-- The blocks, the module's first.
searched :
    (init_blocks two_files 2 root
      (record { found = []; handler = record { heap = tt; hcl_files = [] } })).0
    ≡ ok tt
unfolding init_blocks open_and_parse_hcl_file
searched = refl
