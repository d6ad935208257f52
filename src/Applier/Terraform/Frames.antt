-- ===== src/Applier/Terraform/Frames.antt =====
-- What hclwrite documents of the blocks inside a block, and the calls that leave those of one block
-- as they are.
use iamzero.Prelude.{
  String, ◌≡◌, refl, ◌∙◌, ◌≢◌, Bool, true, false, Option, none, some, List, [], ◌∷◌, ◌++◌, All, inl,
  inr, ◌⊎◌, if◌then◌else◌, Option-cases,
}
use iamzero.Prelude.Assoc.{lookup}
use iamzero.Prelude.Outcome.{Outcome, ok, err, panic, Error, Exec, ◌>>=◌, lift, after_call}
use iamzero.Applier.Terraform.{
  Hcl, FileHandler, Body, file_body, block_body, contents, missing, failed, ReadResult, Traverser,
}
use iamzero.Applier.Terraform.Files.{
  open_file, enter_file, open_and_parse_hcl_file, from_disk, parsed_or_empty, edit, make_block,
  blocks_of,
}
use iamzero.Applier.Terraform.Files.Reopened.{open_file-present, open_file-absent}

module _ {H F B : Type 0} where
  -- A live block stays so, with the same blocks inside.
  abbrev pub Same : Hcl H F B → (B → H → Type 0) → B → H → H → Type 0
  Same hcl Live b h h' =
      Live b h → Live b h' × (hcl.blocks (block_body b) h' ≡ hcl.blocks (block_body b) h)

  -- A block that is live has been made.  Making and parsing files and blocks, attributes, and
  -- blocks that are appended to a file do not change what stands inside it.
  pub record HclLaws (hcl : Hcl H F B) (Live : B → H → Type 0) : Type 0 where
    pub new_empty_file-Same : (b : B) (h : H) → Same hcl Live b h (hcl.new_empty_file h).1
    pub parse_config-Same :
        (b : B) (h : H) (src path : String) (f : F) (h' : H)
        → hcl.parse_config src path h ≡ inl (f, h')
        → Same hcl Live b h h'
    pub new_block-Same :
        (b : B) (h : H) (type_name : String) (ls : List String)
        → Same hcl Live b h (hcl.new_block type_name ls h).1
    pub block_type-new_block :
        (type_name : String) (ls : List String) (h : H)
        → hcl.block_type (hcl.new_block type_name ls h).0 ≡ type_name
    pub set_attribute_raw-Same :
        (b : B) (body : Body F B) (name text : String) (h : H)
        → Same hcl Live b h (hcl.set_attribute_raw body name text h)
    pub set_attribute_string-Same :
        (b : B) (body : Body F B) (name text : String) (h : H)
        → Same hcl Live b h (hcl.set_attribute_string body name text h)
    pub set_attribute_traversal-Same :
        (b : B) (body : Body F B) (name : String) (path : List Traverser) (h : H)
        → Same hcl Live b h (hcl.set_attribute_traversal body name path h)
    pub append_newline-Same :
        (b : B) (body : Body F B) (h : H) → Same hcl Live b h (hcl.append_newline body h)
    pub append_block-Same :
        (b : B) (f : F) (new : B) (h : H) → Same hcl Live b h (hcl.append_block (file_body f) new h)
    pub append_block_lem :
        (b new : B) (h : H)
        → Live b h
        → Live b (hcl.append_block (block_body b) new h)
          × (hcl.blocks (block_body b) (hcl.append_block (block_body b) new h)
              ≡ hcl.blocks (block_body b) h ++ new ∷ [])
    pub remove_block_lem :
        (b old : B) (xs ys : List B) (h : H)
        → Live b h
        → hcl.blocks (block_body b) h ≡ xs ++ old ∷ ys
        → All (λ x. x ≢ old) xs
        → Live b (hcl.remove_block (block_body b) old h)
          × (hcl.blocks (block_body b) (hcl.remove_block (block_body b) old h) ≡ xs ++ ys)

  module _ (hcl : Hcl H F B) (Live : B → H → Type 0) (laws : HclLaws hcl Live) (b : B) where
    abbrev pub Kept : H → H → Type 0
    Kept h h' = Same hcl Live b h h'

    pub Kept-trans : {h h' h'' : H} → Kept h h' → Kept h' h'' → Kept h h''
    Kept-trans p q l = let (l', e) = p l in let (l'', e') = q l' in (l'', e' ∙ e)

    -- A call that leaves the blocks inside `b` as they are, however it ends.
    pub record Keeps {A : Type 0} (m : Exec (FileHandler H F) A) : Type 0 where
      pub at_handler : (fh : FileHandler H F) → Kept fh.heap (m fh).1.heap

    after_call-Kept :
        {A C : Type 0} (h : H) (r : Outcome A × FileHandler H F) (f : A → Exec (FileHandler H F) C)
        → Kept h r.1.heap
        → ((a : A) → Keeps (f a))
        → Kept h (after_call r f).1.heap
    after_call-Kept h (ok a, fh) f p q = Kept-trans p ((q a).at_handler fh)
    after_call-Kept h (err e, fh) f p q = p
    after_call-Kept h (panic e, fh) f p q = p

    pub Keeps-bind :
        {A C : Type 0} (m : Exec (FileHandler H F) A) (f : A → Exec (FileHandler H F) C)
        → Keeps m
        → ((a : A) → Keeps (f a))
        → Keeps (m >>= f)
    Keeps-bind m f p q = record {
      at_handler = λ fh. after_call-Kept fh.heap (m fh) f (p.at_handler fh) q;
    }

    pub Keeps-lift : {A : Type 0} (r : Outcome A) → Keeps (lift r)
    Keeps-lift r = record { at_handler = λ fh l. (l, refl) }

    pub Keeps-if :
        {A : Type 0} (t : Bool) (m n : Exec (FileHandler H F) A)
        → Keeps m
        → Keeps n
        → Keeps (if t then m else n)
    Keeps-if true m n p q = p
    Keeps-if false m n p q = q

    pub edit-Keeps : (change : H → H) → ((h : H) → Kept h (change h)) → Keeps (edit hcl change)
    unfolding edit
    edit-Keeps change p = record { at_handler = λ fh. p fh.heap }

    pub make_block-Keeps :
        (type_name : String) (ls : List String) → Keeps (make_block hcl type_name ls)
    unfolding make_block
    make_block-Keeps type_name ls = record {
      at_handler = λ fh. laws.new_block-Same b fh.heap type_name ls;
    }

    pub blocks_of-Keeps : (body : Body F B) → Keeps (blocks_of hcl body)
    unfolding blocks_of
    blocks_of-Keeps body = record { at_handler = λ fh l. (l, refl) }

    parsed_or_empty-Kept :
        (src path : String) (h : H) (r : (F × H) ⊎ String)
        → hcl.parse_config src path h ≡ r
        → Kept h (parsed_or_empty hcl path h r).1
    unfolding parsed_or_empty
    parsed_or_empty-Kept src path h (inl (f, h')) e = laws.parse_config-Same b h src path f h' e
    parsed_or_empty-Kept src path h (inr e) q = laws.new_empty_file-Same b h

    from_disk-Kept :
        (path : String) (create : Bool) (h : H) (r : ReadResult)
        → Kept h (from_disk hcl path create h r).1
    unfolding from_disk
    from_disk-Kept path true h (missing e) = laws.new_empty_file-Same b h
    from_disk-Kept path false h (missing e) = laws.new_empty_file-Same b h
    from_disk-Kept path create h (failed e) = laws.new_empty_file-Same b h
    from_disk-Kept path create h (contents src) =
        parsed_or_empty-Kept src path h (hcl.parse_config src path h) refl

    enter_file-Kept :
        (h : H) (path : String) (r : (Bool × F × Option Error) × H) (files : List (String × F))
        → Kept h r.1
        → Kept h (enter_file hcl path r files).1.heap
    unfolding enter_file
    enter_file-Kept h path ((created, f, none), h') files p = p
    enter_file-Kept h path ((created, f, some e), h') files p = p

    open_file-Kept :
        (path : String) (create : Bool) (fh : FileHandler H F)
        → Kept fh.heap (open_file hcl path create fh).1.heap
    unfolding open_and_parse_hcl_file
    open_file-Kept path create fh = elim (Option-cases (lookup (hcl.clean path) fh.hcl_files)) [
      | inl q ↦ rw (open_file-absent hcl path create fh q) (
          enter_file-Kept fh.heap (hcl.clean path)
            (open_and_parse_hcl_file hcl (hcl.clean path) create fh.heap) fh.hcl_files
            (from_disk-Kept (hcl.clean path) create fh.heap (hcl.read_file (hcl.clean path))))
      | inr (f, q) ↦ rw (open_file-present hcl path create fh f q) (λ l. (l, refl))
    ]

    pub open_file-Keeps : (path : String) (create : Bool) → Keeps (open_file hcl path create)
    open_file-Keeps path create = record { at_handler = open_file-Kept path create }
