-- ===== src/Applier/Terraform/Files.antt =====
-- FileHandler.OpenFile and OpenAndParseHclFile, and edits of an open file.
pub mod Reopened
use iamzero.Prelude.{
  String, Bool, true, false, Option, none, some, List, [], ◌∷◌, if◌then◌else◌, ◌⊎◌, inl, inr,
}
use iamzero.Prelude.Text.{◌<>◌}
use iamzero.Prelude.Assoc.{lookup, insert}
use iamzero.Prelude.Outcome.{Outcome, ok, err, Error, plain, Exec}
use iamzero.Applier.Terraform.{Hcl, FileHandler, Body, ReadResult, contents, missing, failed}

module _ {H F B : Type 0} (hcl : Hcl H F B) where
  not_read : String → String → Option Error
  not_read path e = some (plain ("failed to read file " <> (path <> (" because " <> e))))

  not_parsed : String → String → Option Error
  not_parsed path e =
      some (plain ("failed to parse hcl file " <> (path <> (" because of errors " <> e))))

  -- An empty file, with an error or without.
  unfoldable pub with_empty : Bool → Option Error → H → (Bool × F × Option Error) × H
  with_empty created e h = let (f, h') = hcl.new_empty_file h in ((created, f, e), h')

  unfoldable pub parsed_or_empty : String → H → (F × H) ⊎ String → (Bool × F × Option Error) × H
  unfolding not_parsed with_empty
  parsed_or_empty path h (inl (f, h')) = ((false, f, none), h')
  parsed_or_empty path h (inr e) = with_empty false (not_parsed path e) h

  unfoldable pub from_disk : String → Bool → H → ReadResult → (Bool × F × Option Error) × H
  unfolding not_read with_empty parsed_or_empty
  from_disk path create h (missing e) =
      if create then with_empty true none h else with_empty false (not_read path e) h
  from_disk path create h (failed e) = with_empty false (not_read path e) h
  from_disk path create h (contents src) = parsed_or_empty path h (hcl.parse_config src path h)

  -- Whether a file was made, the file, and the error.
  unfoldable pub open_and_parse_hcl_file : String → Bool → H → (Bool × F × Option Error) × H
  unfolding from_disk
  open_and_parse_hcl_file path create h = from_disk path create h (hcl.read_file path)

  -- The file is entered in the map before the error is looked at.
  unfoldable pub enter_file :
      String → (Bool × F × Option Error) × H → List (String × F) → Outcome F × FileHandler H F
  enter_file path ((created, f, e), h) files =
      let fh : FileHandler H F = record { heap = h; hcl_files = insert path f files } in
      elim e [ none ↦ (ok f, fh) | some e' ↦ (err e', fh) ]

  unfoldable pub open_file : String → Bool → Exec (FileHandler H F) F
  unfolding enter_file lookup
  open_file path create fh = elim (lookup (hcl.clean path) fh.hcl_files) [
    | some f ↦ (ok f, fh)
    | none ↦
        enter_file (hcl.clean path) (open_and_parse_hcl_file (hcl.clean path) create fh.heap)
          fh.hcl_files
  ]

  -- A call of hclwrite that changes the heap.
  unfoldable pub edit : (H → H) → Exec (FileHandler H F) (Unit {0})
  edit change fh = (ok tt, record fh { heap = change fh.heap })

  -- A call of hclwrite that makes a block.
  unfoldable pub make_block : String → List String → Exec (FileHandler H F) B
  make_block type_name labels fh =
      let (b, h) = hcl.new_block type_name labels fh.heap in (ok b, record fh { heap = h })

  unfoldable pub blocks_of : Body F B → Exec (FileHandler H F) (List B)
  blocks_of body fh = (ok (hcl.blocks body fh.heap), fh)
