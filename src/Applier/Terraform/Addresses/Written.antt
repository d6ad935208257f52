-- ===== src/Applier/Terraform/Addresses/Written.antt =====
-- How the traversal of an address is written in a file.
use Prim.Native.Char.{Char}
use text.Mathlib.TextEquality.{codes_equal}
use iamzero.Prelude.{
  String, ◌≡◌, ap, sym, ◌∙◌, true, List, [], ◌∷◌, map, arith, inl, inr, Bool-cases,
}
use iamzero.Prelude.Text.{◌<>◌, split, put_first, is_char, cons-append, nil-append}
use iamzero.Prelude.Words.{split-nonempty, one-append}
use iamzero.Applier.Terraform.{Traverser, traverse_root, traverse_attr}
use iamzero.Applier.Terraform.Addresses.{traversal_from_address, traversal_of}

-- The root, and each attribute behind a dot.
abbrev pub written : List Traverser → String
written [] = ""
written (traverse_root name ∷ ts) = name <> written ts
written (traverse_attr name ∷ ts) = "." <> (name <> written ts)

dot_lem : (c : Char) → is_char b'.' c ≡ true → c ≡ "."
dot_lem c h = codes_equal c "." (ground arith)

written-traversal_of : (s : String) → written (traversal_of (split b'.' s)) ≡ s
unfolding split traversal_of put_first
written-traversal_of String.[] = nil-append ""
written-traversal_of (String.◌∷◌ c s) =
    let (y, ys, e) = split-nonempty b'.' s in
    let ih : y <> written (map traverse_attr ys) ≡ s =
      ap (λ parts. written (traversal_of parts)) (sym e) ∙ written-traversal_of s in
    elim (Bool-cases (is_char b'.' c)) [
      | inl q ↦
          rw (q, e)
            (nil-append _
              ∙ one-append "." _
              ∙ ap (String.◌∷◌ ".") ih
              ∙ ap (λ d. String.◌∷◌ d s) (sym (dot_lem c q)))
      | inr q ↦ rw (q, e) (cons-append c y _ ∙ ap (String.◌∷◌ c) ih)
    ]

-- The traversal that TraversalFromAddress makes of an address is written as that address, whatever
-- the address.
pub written-traversal_from_address :
    (address : String) → written (traversal_from_address address) ≡ address
unfolding traversal_from_address
written-traversal_from_address address = written-traversal_of address
