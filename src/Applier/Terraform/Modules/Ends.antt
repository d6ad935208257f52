-- ===== src/Applier/Terraform/Modules/Ends.antt =====
-- The search of the modules ends where no local module leads back to itself.
use iamzero.Prelude.{
  ℕ, zero, suc, ◌<◌, String, ◌≡◌, refl, ap, false, Option, none, some, List, [], ◌∷◌, All, arith,
}
use iamzero.Prelude.Outcome.{Outcome, ok, err, panic, Exec, ◌>>=◌, after_call}
use iamzero.Applier.Terraform.{Hcl, FileHandler, Block, file_body}
use iamzero.Applier.Terraform.Files.{open_file}
use iamzero.Applier.Terraform.Files.Reopened.{open_file-no_panic}
use iamzero.Applier.Terraform.Modules.{
  Search, module_block_has_local_source, child_path, visit_source, add_block, add_blocks,
  open_in_search, put_block, source_of, body_blocks, terraform_dfs, block_key, block_at,
}

module _ {H F B : Type 0} (hcl : Hcl H F B) (Good : FileHandler H F → Type 0)
    (rank : String → ℕ) where
  -- A local module of a block of that file, read at any later time, has a lower rank.
  abbrev pub Falls : String → B → Type 0
  Falls path b =
      (fh : FileHandler H F) (directory : String)
      → Good fh
      → module_block_has_local_source hcl fh.heap b ≡ some directory
      → rank (child_path hcl path directory) < rank path

  -- Opening a file keeps the handler good, and its blocks fall.
  abbrev pub Opens : Type 0
  Opens =
      (path : String) (f : F) (fh fh' : FileHandler H F)
      → Good fh
      → open_file hcl path false fh ≡ (ok f, fh')
      → Good fh' × All (Falls path) (hcl.blocks (file_body f) fh'.heap)

  -- No panic, and a good handler where there is no error.
  abbrev pub Ends : {A : Type 0} → Outcome A × Search H F B → Type 0
  Ends (ok a, s) = Good s.handler
  Ends (err e, s) = Unit
  Ends (panic p, s) = ⊥

  Ends-after :
      {A C : Type 0} (r : Outcome A × Search H F B) (f : A → Exec (Search H F B) C)
      → Ends r
      → ((a : A) (s : Search H F B) → Good s.handler → Ends (f a s))
      → Ends (after_call r f)
  Ends-after (ok a, s) f g h = h a s g
  Ends-after (err e, s) f g h = tt
  Ends-after (panic p, s) f g h = absurd g

  -- A search with enough fuel for paths of that rank.
  abbrev Searches :
      ℕ → (String → String → Option (Block F B) → Exec (Search H F B) (Unit {0})) → Type 0
  Searches n visit =
      (path module_path : String) (parent : Option (Block F B)) (s : Search H F B)
      → rank path < n
      → Good s.handler
      → Ends (visit path module_path parent s)

  module _ (n : ℕ) (visit : String → String → Option (Block F B) → Exec (Search H F B) (Unit {0}))
      (searches : Searches n visit) where
    visit_source-Ends :
        (path key : String) (b : Block F B) (source : Option String) (s : Search H F B)
        → ((directory : String)
            → source ≡ some directory
            → rank (child_path hcl path directory) < n)
        → Good s.handler
        → Ends (visit_source hcl visit path key b source s)
    unfolding visit_source
    visit_source-Ends path key b none s h g = g
    visit_source-Ends path key b (some directory) s h g =
        searches (child_path hcl path directory) key (some b) s (h directory refl) g

    add_block-Ends :
        (path module_path : String) (file : F) (parent : Option (Block F B)) (b : B)
        (s : Search H F B)
        → rank path < suc n
        → Falls path b
        → Good s.handler
        → Ends (add_block hcl visit path module_path file parent b s)
    unfolding add_block source_of put_block
    add_block-Ends path module_path file parent b s r falls g =
        Ends-after
          (visit_source hcl visit path (block_key hcl module_path b)
            (block_at hcl path file parent b) (module_block_has_local_source hcl s.handler.heap b)
            s)
          _
          (visit_source-Ends path (block_key hcl module_path b) (block_at hcl path file parent b)
            (module_block_has_local_source hcl s.handler.heap b) s
            (λ directory e. omega (arith, falls s.handler directory g e)) g)
          λ u s' g'. g'

    add_blocks-Ends :
        (path module_path : String) (file : F) (parent : Option (Block F B)) (bs : List B)
        (s : Search H F B)
        → rank path < suc n
        → All (Falls path) bs
        → Good s.handler
        → Ends (add_blocks hcl visit path module_path file parent bs s)
    unfolding add_blocks
    add_blocks-Ends path module_path file parent [] s r falls g = g
    add_blocks-Ends path module_path file parent (b ∷ bs) s r falls g =
        Ends-after (add_block hcl visit path module_path file parent b s) _
          (add_block-Ends path module_path file parent b s r falls.0 g)
          λ u s' g'. add_blocks-Ends path module_path file parent bs s' r falls.1 g'

  module _ (opens : Opens) where
    opened-Ends :
        (fuel : ℕ) (path module_path : String) (parent : Option (Block F B)) (s : Search H F B)
        (r : Outcome F × FileHandler H F)
        → open_file hcl path false s.handler ≡ r
        → rank path < suc fuel
        → Good s.handler
        → Searches fuel (terraform_dfs hcl fuel)
        → Ends (
            after_call
              (r.0, record s { handler = r.1 })
              λ file. body_blocks hcl file >>= λ bs.
                add_blocks hcl (terraform_dfs hcl fuel) path module_path file parent bs)
    unfolding body_blocks
    opened-Ends fuel path module_path parent s (ok f, fh) e r g ih =
        let (g', falls) = opens path f s.handler fh g e in
        add_blocks-Ends fuel (terraform_dfs hcl fuel) ih path module_path f parent
          (hcl.blocks (file_body f) fh.heap) (record s { handler = fh }) r falls g'
    opened-Ends fuel path module_path parent s (err x, fh) e r g ih = tt
    opened-Ends fuel path module_path parent s (panic x, fh) e r g ih =
        open_file-no_panic hcl path false s.handler x (ap (λ q. q.0) e)

    -- Where a rank falls from each file to the local modules of its blocks, however often files
    -- have been opened meanwhile, a search with more fuel than the rank of its file ends: it finds
    -- its blocks or fails with an error, and never overflows the stack.
    pub terraform_dfs-Ends :
        (fuel : ℕ) (path module_path : String) (parent : Option (Block F B)) (s : Search H F B)
        → rank path < fuel
        → Good s.handler
        → Ends (terraform_dfs hcl fuel path module_path parent s)
    unfolding terraform_dfs open_in_search
    terraform_dfs-Ends zero path module_path parent s r g = absurd (omega arith)
    terraform_dfs-Ends (suc fuel) path module_path parent s r g =
        opened-Ends fuel path module_path parent s (open_file hcl path false s.handler) refl r g
          (terraform_dfs-Ends fuel)
