-- ===== src/Applier/Diff/Sides.antt =====
-- The counts in the header of a hunk.
use iamzero.Prelude.{
  ℕ, ◌+◌, String, ◌≡◌, refl, ap₂, ◌∙◌, Bool, true, false, List, [], ◌∷◌, length, select, arith,
  if◌then◌else◌,
}
use iamzero.Prelude.Text.{◌<>◌}
use iamzero.Applier.Diff.{
  delete, insert, equal, Line, Hunk, count_line, count_lines, range_text, hunk_header,
}

abbrev pub in_old : Line → Bool
in_old l = elim l.kind [ insert ↦ false | _ ↦ true ]

abbrev pub in_new : Line → Bool
in_new l = elim l.kind [ delete ↦ false | _ ↦ true ]

zero-add : (n : ℕ) → 0 + n ≡ n
zero-add n = omega arith

count_lines-sides :
    (ls : List Line) (a b : ℕ)
    → count_lines ls (a, b) ≡ (a + length (select in_old ls), b + length (select in_new ls))
unfolding count_lines count_line
count_lines-sides [] a b = ap₂ (λ x y. (x, y)) (omega arith) (omega arith)
count_lines-sides (l ∷ ls) a b =
    elim l.kind
      as (λ k. count_lines ls (count_line k (a, b)) ≡ (
        a
            + length (
                if (elim k [ insert ↦ false | _ ↦ true ])
                then l ∷ select in_old ls
                else select in_old ls),
        b
            + length (
                if (elim k [ delete ↦ false | _ ↦ true ])
                then l ∷ select in_new ls
                else select in_new ls),
      )) [
        | delete ↦ count_lines-sides ls (a + 1) b ∙ ap₂ (λ x y. (x, y)) (omega arith) refl
        | insert ↦ count_lines-sides ls a (b + 1) ∙ ap₂ (λ x y. (x, y)) refl (omega arith)
        | equal ↦
            count_lines-sides ls (a + 1) (b + 1) ∙ ap₂ (λ x y. (x, y)) (omega arith) (omega arith)
      ]

-- The header of a hunk gives its lines and how many of its lines the old text has, and the new one.
hunk_header-sides :
    (red green : String → String) (ends_with_newline : String → Bool) (hunk : Hunk)
    → hunk_header red green ends_with_newline hunk
      ≡ "@@"
        <> (red (range_text " -" hunk.from_line (length (select in_old hunk.lines)))
            <> (green (range_text " +" hunk.to_line (length (select in_new hunk.lines)))
                <> " @@\n"))
unfolding hunk_header
hunk_header-sides red green ends_with_newline hunk =
    rw
      (count_lines-sides hunk.lines 0 0
        ∙ ap₂ (λ x y. (x, y)) (zero-add (length (select in_old hunk.lines)))
            (zero-add (length (select in_new hunk.lines))))
      refl
