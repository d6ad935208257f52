-- ===== src/Applier/Terraform/Policies/Replaced.antt =====
-- What ApplyFindingToBlock leaves inside the block of the role.
use iamzero.Prelude.{
  ℕ, String, ◌≡◌, refl, sym, ap, ◌∙◌, ◌≢◌, true, false, not, List, [], ◌∷◌, ◌++◌, ◌+◌, arith, ◌==◌,
  All, select, length, length-append, inl, inr, Bool-cases,
}
use mathlib.Core.List.{append-nil, append_assoc}
use iamzero.Prelude.Outcome.{Outcome, ok, err, panic, ◌>>◌, after_call}
use iamzero.Prelude.Ensures.{Holds, Ensures, Ensures-bind, Ensures-any, Ensures-pure}
use iamzero.Prelude.Digits.{decimal}
use iamzero.Prelude.Text.{◌<>◌}
use iamzero.Applier.Terraform.{
  Hcl, FileHandler, Block, this_block, Blocks, block_body, StateFileResources, TerraformStatement,
  TerraformRecommendation, TerraformFinding,
}
use iamzero.Applier.Terraform.Files.{edit, make_block, blocks_of}
use iamzero.Applier.Terraform.Frames.{
  HclLaws, Kept, Keeps, Keeps-bind, Keeps-lift, make_block-Keeps,
}
use iamzero.Applier.Terraform.Editing.{is_block_inline_policy, set_inline_policy_iam_policy}
use iamzero.Applier.Terraform.Editing.Kept.{set_inline_policy_iam_policy-Keeps}
use iamzero.Applier.Terraform.References.{resource_reference}
use iamzero.Applier.Terraform.References.Kept.{resource_reference-Keeps}
use iamzero.Applier.Terraform.Policies.{
  new_inline_policy, new_inline_policies, recommended_policies, remove_blocks, append_blocks,
  apply_finding_to_block,
}

All-append : {A : Type 0} (P : A → Type 0) (xs ys : List A) → All P xs → All P ys → All P (xs ++ ys)
All-append P [] ys h k = k
All-append P (x ∷ xs) ys h k = (h.0, All-append P xs ys h.1 k)

abbrev pub statement_count : List TerraformRecommendation → ℕ
statement_count [] = 0
statement_count (r ∷ rs) = length r.statements + statement_count rs

module _ {H F B : Type 0} (hcl : Hcl H F B) (Live : B → H → Type 0) (laws : HclLaws hcl Live)
    (project_path : String) (blocks : Blocks F B) (resources : StateFileResources)
    (role : Block F B) where
  abbrev raw : B
  raw = (this_block role).raw_block

  abbrev IsInline : B → Type 0
  IsInline x = is_block_inline_policy hcl x ≡ true

  new_inline_policy-Keeps :
      (i : ℕ) (statement : TerraformStatement)
      → Keeps hcl Live laws raw
          (new_inline_policy hcl project_path blocks resources role i statement)
  unfolding new_inline_policy
  new_inline_policy-Keeps i statement =
      Keeps-bind hcl Live laws raw _ _ (make_block-Keeps hcl Live laws raw "inline_policy" []) λ x.
        Keeps-bind hcl Live laws raw _ _
          (resource_reference-Keeps hcl Live laws raw project_path blocks resources role statement)
          λ arn.
            Keeps-bind hcl Live laws raw _ _
              (set_inline_policy_iam_policy-Keeps hcl Live laws raw x
                (hcl.marshal_strings statement.actions) arn
                ("iamzero-generated-iam-policy-" <> decimal i))
              λ u. Keeps-lift hcl Live laws raw (ok x)

  new_inline_policies-Keeps :
      (i : ℕ) (ss : List TerraformStatement) (made : List B)
      → Keeps hcl Live laws raw
          (new_inline_policies hcl project_path blocks resources role i ss made)
  unfolding new_inline_policies
  new_inline_policies-Keeps i [] made = Keeps-lift hcl Live laws raw (ok made)
  new_inline_policies-Keeps i (s ∷ ss) made =
      Keeps-bind hcl Live laws raw _ _ (new_inline_policy-Keeps i s)
        λ x. new_inline_policies-Keeps (i + 1) ss (made ++ x ∷ [])

  recommended_policies-Keeps :
      (rs : List TerraformRecommendation) (made : List B)
      → Keeps hcl Live laws raw
          (recommended_policies hcl project_path blocks resources role rs made)
  unfolding recommended_policies
  recommended_policies-Keeps [] made = Keeps-lift hcl Live laws raw (ok made)
  recommended_policies-Keeps (r ∷ rs) made =
      Keeps-bind hcl Live laws raw _ _ (new_inline_policies-Keeps 0 r.statements made)
        λ made'. recommended_policies-Keeps rs made'

  make_block-IsInline : Ensures IsInline (make_block hcl "inline_policy" [])
  unfolding make_block is_block_inline_policy
  make_block-IsInline = record {
    in_state =
        λ fh. ap (λ t. t == "inline_policy") (laws.block_type-new_block "inline_policy" [] fh.heap);
  }

  new_inline_policy-IsInline :
      (i : ℕ) (statement : TerraformStatement)
      → Ensures IsInline (new_inline_policy hcl project_path blocks resources role i statement)
  unfolding new_inline_policy
  new_inline_policy-IsInline i statement =
      Ensures-bind IsInline IsInline _ _ make_block-IsInline λ x q.
        Ensures-bind (λ arn. Unit {0}) IsInline _ _
          (Ensures-any (resource_reference hcl project_path blocks resources role statement))
          λ arn u.
            Ensures-bind (λ v. Unit {0}) IsInline _ _
              (Ensures-any (
                set_inline_policy_iam_policy hcl x (hcl.marshal_strings statement.actions) arn
                  ("iamzero-generated-iam-policy-" <> decimal i)))
              λ v w. Ensures-pure IsInline x q

  -- Inline policies, as many as asked for.
  abbrev Made : ℕ → List B → Type 0
  Made n bs = All IsInline bs × (length bs ≡ n)

  new_inline_policies-Made :
      (n i : ℕ) (ss : List TerraformStatement) (made : List B)
      → All IsInline made
      → length made + length ss ≡ n
      → Ensures (Made n) (new_inline_policies hcl project_path blocks resources role i ss made)
  unfolding new_inline_policies
  new_inline_policies-Made n i [] made h e = Ensures-pure (Made n) made (h, omega arith)
  new_inline_policies-Made n i (s ∷ ss) made h e =
      Ensures-bind IsInline (Made n) _ _ (new_inline_policy-IsInline i s) λ x q.
        new_inline_policies-Made n (i + 1) ss (made ++ x ∷ [])
          (All-append IsInline made (x ∷ []) h (q, tt))
          (omega (arith, length-append {0} made (x ∷ [])))

  recommended_policies-Made :
      (n : ℕ) (rs : List TerraformRecommendation) (made : List B)
      → All IsInline made
      → length made + statement_count rs ≡ n
      → Ensures (Made n) (recommended_policies hcl project_path blocks resources role rs made)
  unfolding recommended_policies
  recommended_policies-Made n [] made h e = Ensures-pure (Made n) made (h, omega arith)
  recommended_policies-Made n (r ∷ rs) made h e =
      Ensures-bind (Made (length made + length r.statements)) (Made n) _ _
        (new_inline_policies-Made (length made + length r.statements) 0 r.statements made h refl)
        λ made' q. recommended_policies-Made n rs made' q.0 (omega (arith, q.1))

  -- The blocks that are not inline policies, in order.
  abbrev pub others : List B → List B
  others bs = select (λ x. not (is_block_inline_policy hcl x)) bs

  differ :
      (xs : List B) (x : B)
      → All (λ y. is_block_inline_policy hcl y ≡ false) xs
      → IsInline x
      → All (λ y. y ≢ x) xs
  differ [] x h q = tt
  differ (y ∷ xs) x h q = ((λ e. cc (ap (is_block_inline_policy hcl) e)), differ xs x h.1 q)

  -- Removing the inline policies of the blocks behind the ones that were kept.
  remove_blocks-others :
      (keep rest : List B) (fh : FileHandler H F)
      → Live raw fh.heap
      → hcl.blocks (block_body raw) fh.heap ≡ keep ++ rest
      → All (λ y. is_block_inline_policy hcl y ≡ false) keep
      → (fh' : FileHandler H F) × (remove_blocks hcl project_path blocks resources role
            (select (is_block_inline_policy hcl) rest)
            fh
          ≡ (ok tt, fh'))
        × Live raw fh'.heap
        × (hcl.blocks (block_body raw) fh'.heap ≡ keep ++ others rest)
  unfolding remove_blocks edit
  remove_blocks-others keep [] fh l e h = (fh, refl, l, e)
  remove_blocks-others keep (x ∷ rest) fh l e h = elim (Bool-cases (is_block_inline_policy hcl x)) [
    | inl q ↦
        let (l', e') = laws.remove_block_lem raw x keep rest fh.heap l e (differ keep x h q) in
        rw q (
          remove_blocks-others keep rest
            (record fh { heap = hcl.remove_block (block_body raw) x fh.heap }) l' e' h)
    | inr q ↦
        let (fh', r, l', e') =
          remove_blocks-others (keep ++ x ∷ []) rest fh l
            (e ∙ sym (append_assoc keep (x ∷ []) rest))
            (All-append (λ y. is_block_inline_policy hcl y ≡ false) keep (x ∷ []) h (q, tt)) in
        rw q (fh', r, l', e' ∙ append_assoc keep (x ∷ []) (others rest))
  ]

  append_blocks-appends :
      (new : List B) (fh : FileHandler H F)
      → Live raw fh.heap
      → (fh' : FileHandler H F) × (append_blocks hcl project_path blocks resources role new fh
          ≡ (ok tt, fh'))
        × (hcl.blocks (block_body raw) fh'.heap ≡ hcl.blocks (block_body raw) fh.heap ++ new)
  unfolding append_blocks edit
  append_blocks-appends [] fh l = (fh, refl, sym (append-nil _))
  append_blocks-appends (x ∷ new) fh l =
      let (l', e) = laws.append_block_lem raw x fh.heap l in
      let (fh', r, e') =
        append_blocks-appends new (record fh { heap = hcl.append_block (block_body raw) x fh.heap })
          l' in
      (
        fh',
        r,
        e'
            ∙ ap (λ bs. bs ++ new) e
            ∙ append_assoc (hcl.blocks (block_body raw) fh.heap) (x ∷ []) new,
      )

  -- The role's block holds its other blocks, in order, and then one inline policy for each
  -- statement; where the call fails, what it held before.
  abbrev pub Replaced : List B → ℕ → Outcome (Unit {0}) × FileHandler H F → Type 0
  Replaced old n (ok u, fh) =
      (new : List B) × (hcl.blocks (block_body raw) fh.heap ≡ others old ++ new) × Made n new
  Replaced old n (err e, fh) = hcl.blocks (block_body raw) fh.heap ≡ old
  Replaced old n (panic p, fh) = hcl.blocks (block_body raw) fh.heap ≡ old

  after_call-Replaced :
      (old : List B) (n : ℕ) (h : H) (r : Outcome (List B) × FileHandler H F)
      → Live raw h
      → old ≡ hcl.blocks (block_body raw) h
      → Kept hcl Live laws raw h r.1.heap
      → Holds (Made n) r
      → Replaced old n (
          after_call r λ new.
            remove_blocks hcl project_path blocks resources role
              (select (is_block_inline_policy hcl) old)
            >> append_blocks hcl project_path blocks resources role new)
  after_call-Replaced old n h (ok new, fh) l o k m =
      let (l1, e1) = k l in
      let (fh2, r2, l2, e2) = remove_blocks-others [] old fh l1 (e1 ∙ sym o) tt in
      let (fh3, r3, e3) = append_blocks-appends new fh2 l2 in
      rw (r2, r3) (new, e3 ∙ ap (λ bs. bs ++ new) e2, m)
  after_call-Replaced old n h (err e, fh) l o k m = (k l).1 ∙ sym o
  after_call-Replaced old n h (panic p, fh) l o k m = (k l).1 ∙ sym o

  -- Over a library that edits blocks as hclwrite documents, applying a finding to the block of a
  -- role leaves in it the nested blocks that are no inline policies, in their order, and behind
  -- them new inline policies, as many as the finding has statements.  Where the call fails or
  -- panics, the nested blocks are the ones from before.
  pub apply_finding_to_block-Replaced :
      (finding : TerraformFinding) (fh : FileHandler H F)
      → Live raw fh.heap
      → Replaced
          (hcl.blocks (block_body raw) fh.heap)
          (statement_count finding.recommendations)
          (apply_finding_to_block hcl project_path blocks resources role finding fh)
  unfolding apply_finding_to_block blocks_of
  apply_finding_to_block-Replaced finding fh l =
      after_call-Replaced (hcl.blocks (block_body raw) fh.heap)
        (statement_count finding.recommendations) fh.heap
        (recommended_policies hcl project_path blocks resources role finding.recommendations [] fh)
        l refl ((recommended_policies-Keeps finding.recommendations []).at_handler fh)
        ((recommended_policies-Made (statement_count finding.recommendations)
            finding.recommendations [] tt (omega arith)).in_state
          fh)
