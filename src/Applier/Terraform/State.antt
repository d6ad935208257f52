-- ===== src/Applier/Terraform/State.antt =====
-- ParseTerraformState, OpenStateFile, FetchStateFileFromS3BackendBlockDefinition and Init.
-- `exists` is whether os.Stat finds a path, `unmarshal` json.Unmarshal into a StateFile, and
-- `get_object` the calls of AWS that fetch an object, with the role to assume.
use iamzero.Prelude.{ℕ, String, Bool, false, Option, none, some, [], ◌∷◌, if◌then◌else◌}
use iamzero.Prelude.Text.{◌<>◌}
use iamzero.Prelude.Words.{trim_cutset}
use iamzero.Prelude.Outcome.{
  Outcome, ok, err, Error, plain, Exec, ◌>>=◌, ◌>>◌, pure, and_then, wrap_error, wrapping,
}
use iamzero.Applier.Terraform.{
  Hcl, FileHandler, file_body, block_body, ReadResult, contents, missing, failed, StateFile, Blocks,
  TerraformIamPolicyApplier,
}
use iamzero.Applier.Terraform.Files.{open_file}
use iamzero.Applier.Terraform.Modules.{init_blocks}
use iamzero.Applier.Terraform.Resources.{parse_state_file_to_state_file_resources}
use iamzero.Applier.Terraform.References.{get_root_file_path}

module _ {H F B : Type 0} (hcl : Hcl H F B) (exists : String → Bool)
    (unmarshal : String → Outcome StateFile)
    (get_object : Option String → String → String → Outcome String) (assume_role : Option String)
    (project_path : String) where
  marshal_state_file : ReadResult → String → Outcome StateFile
  marshal_state_file (contents src) path = unmarshal src
  marshal_state_file (missing e) path =
      err (plain ("failed to read file " <> (path <> (" because " <> e))))
  marshal_state_file (failed e) path =
      err (plain ("failed to read file " <> (path <> (" because " <> e))))

  unfoldable pub open_state_file : String → Outcome StateFile
  unfolding marshal_state_file
  open_state_file path = marshal_state_file (hcl.read_file path) path

  unquoted : String → String
  unfolding trim_cutset
  unquoted text = trim_cutset " \"" text

  fetch_attributes : Option String → Option String → Option String → Outcome String
  unfolding unquoted
  fetch_attributes (some bucket) (some key) (some region) =
      get_object assume_role (unquoted bucket) (unquoted key)
  fetch_attributes _ _ _ = err (plain "remote state properties missing, could not fetch file")

  unfoldable pub fetch_state_file_from_s3_backend_block_definition : B → H → Outcome String
  unfolding fetch_attributes
  fetch_state_file_from_s3_backend_block_definition b h =
      fetch_attributes (hcl.attribute_text (block_body b) "bucket" h)
        (hcl.attribute_text (block_body b) "key" h) (hcl.attribute_text (block_body b) "region" h)

  state_path : String
  state_path = hcl.join_path (project_path ∷ "terraform.tfstate" ∷ [])

  -- The local state where there is one, or the error.
  local_or : Error → Outcome StateFile
  unfolding open_state_file state_path
  local_or e = if exists state_path then open_state_file state_path else err e

  remote_state : B → H → Outcome StateFile
  unfolding fetch_state_file_from_s3_backend_block_definition
  remote_state b h =
      and_then
        (wrap_error "error while trying to fetch state from s3 bucket"
          (fetch_state_file_from_s3_backend_block_definition b h))
        λ src.
          wrap_error "error while trying to marshal state fetched from s3 bucket" (unmarshal src)

  state_of_backend : Option B → H → Outcome StateFile
  unfolding local_or remote_state
  state_of_backend none h = local_or (plain "failed to read state")
  state_of_backend (some backend) h = remote_state backend h

  state_of_terraform : Option B → H → Outcome StateFile
  unfolding local_or state_of_backend
  state_of_terraform none h =
      local_or (plain "could not find terraform block while trying to parse terraform state")
  state_of_terraform (some terraform) h =
      state_of_backend (hcl.first_matching_block (block_body terraform) "backend" ("s3" ∷ []) h) h

  state_of_main : F → Exec (FileHandler H F) StateFile
  unfolding state_of_terraform
  state_of_main main fh = (
    state_of_terraform (hcl.first_matching_block (file_body main) "terraform" [] fh.heap) fh.heap,
    fh,
  )

  unfoldable pub parse_terraform_state : Exec (FileHandler H F) StateFile
  unfolding open_file state_of_main get_root_file_path
  parse_terraform_state =
      wrapping "error while trying to parse state"
        (open_file hcl (get_root_file_path hcl project_path) false)
      >>= state_of_main

  -- The blocks of a search that begins with none.
  blocks_from_root : ℕ → Exec (FileHandler H F) (Blocks F B)
  unfolding init_blocks get_root_file_path
  blocks_from_root fuel fh =
      let (r, s) =
        init_blocks hcl fuel (get_root_file_path hcl project_path)
          (record { found = []; handler = fh }) in
      (
        and_then (wrap_error "initialising applier, initialising blocks failed" r)
            (λ u. ok s.found),
        s.handler,
      )

  forget_files : Exec (FileHandler H F) (Unit {0})
  forget_files fh = (ok tt, record fh { hcl_files = [] })

  -- The applier with its blocks and its resources.
  unfoldable pub init :
      ℕ → TerraformIamPolicyApplier F B → Exec (FileHandler H F) (TerraformIamPolicyApplier F B)
  unfolding parse_terraform_state blocks_from_root forget_files
      parse_state_file_to_state_file_resources
  init fuel t =
      forget_files
      >> (parse_terraform_state >>= λ state_file. blocks_from_root fuel >>= λ blocks.
          pure (record t {
            blocks = some blocks;
            state_file_resources = some (parse_state_file_to_state_file_resources state_file);
          }))
