-- ===== src/Applier/Terraform/Files/Reopened.antt =====
-- What a second OpenFile of a path returns.
use iamzero.Prelude.{
  String, ◌≡◌, ◌≢◌, refl, ap, Bool, Option, none, some, List, eq_refl, Option-cases, inl, inr,
}
use iamzero.Prelude.Assoc.{lookup, lookup-insert}
use iamzero.Prelude.Outcome.{ok, err, panic, Error, Panic}
use iamzero.Applier.Terraform.{Hcl, FileHandler}
use iamzero.Applier.Terraform.Files.{open_file, enter_file, open_and_parse_hcl_file}

module _ {H F B : Type 0} (hcl : Hcl H F B) where
  lookup-enter_file :
      (path : String) (r : (Bool × F × Option Error) × H) (files : List (String × F))
      → lookup path (enter_file hcl path r files).1.hcl_files ≡ some r.0.1
  unfolding enter_file
  lookup-enter_file path ((created, f, none), h) files =
      rw (lookup-insert path path f files, eq_refl path) refl
  lookup-enter_file path ((created, f, some e), h) files =
      rw (lookup-insert path path f files, eq_refl path) refl

  pub open_file-present :
      (path : String) (create : Bool) (fh : FileHandler H F) (f : F)
      → lookup (hcl.clean path) fh.hcl_files ≡ some f
      → open_file hcl path create fh ≡ (ok f, fh)
  unfolding open_file
  open_file-present path create fh f e = rw (e, open_file) refl

  pub open_file-absent :
      (path : String) (create : Bool) (fh : FileHandler H F)
      → lookup (hcl.clean path) fh.hcl_files ≡ none
      → open_file hcl path create fh
        ≡ enter_file hcl
            (hcl.clean path)
            (open_and_parse_hcl_file hcl (hcl.clean path) create fh.heap)
            fh.hcl_files
  unfolding open_file
  open_file-absent path create fh e = rw (e, open_file) refl

  enter_file-no_panic :
      (path : String) (r : (Bool × F × Option Error) × H) (files : List (String × F)) (p : Panic)
      → (enter_file hcl path r files).0 ≢ panic p
  unfolding enter_file
  enter_file-no_panic path ((created, f, none), h) files p e = cc
  enter_file-no_panic path ((created, f, some x), h) files p e = cc

  pub open_file-no_panic :
      (path : String) (create : Bool) (fh : FileHandler H F) (p : Panic)
      → (open_file hcl path create fh).0 ≢ panic p
  open_file-no_panic path create fh p = elim (Option-cases (lookup (hcl.clean path) fh.hcl_files)) [
    | inl q ↦ rw (open_file-absent path create fh q) (
        enter_file-no_panic (hcl.clean path)
          (open_and_parse_hcl_file hcl (hcl.clean path) create fh.heap) fh.hcl_files p)
    | inr (f, q) ↦ λ e. cc (ap (λ r. r.0) (open_file-present path create fh f q))
  ]

  -- A path that OpenFile failed on is open all the same: OpenFile then returns the file that stands
  -- for it, whatever it is asked for, and changes nothing.
  pub open_file-twice :
      (path : String) (create again : Bool) (fh : FileHandler H F) (e : Error)
      → (open_file hcl path create fh).0 ≡ err e
      → (f : F) × (open_file hcl path again (open_file hcl path create fh).1
          ≡ (ok f, (open_file hcl path create fh).1))
  open_file-twice path create again fh e failed =
      elim (Option-cases (lookup (hcl.clean path) fh.hcl_files)) [
        | inl q ↦
            let r = open_and_parse_hcl_file hcl (hcl.clean path) create fh.heap in
            (
              r.0.1,
              rw (open_file-absent path create fh q) (
                  open_file-present path again _ r.0.1
                    (lookup-enter_file (hcl.clean path) r fh.hcl_files)),
            )
        | inr (f, q) ↦ cc (ap (λ r. r.0) (open_file-present path create fh f q))
      ]
