-- ===== src/Applier/Diff.antt =====
-- pkg/applier/diff.go.  Package gotextdiff computes the hunks, and package color colours a text.
pub mod Sides
mod Tests
use iamzero.Prelude.{
  ℕ, ◌+◌, String, ◌≡◌, refl, Bool, true, false, ◌&&◌, not, List, [], ◌∷◌, ltb, if◌then◌else◌,
  length, arith, select,
}
use iamzero.Prelude.Text.{◌<>◌}
use iamzero.Prelude.Digits.{decimal}
use iamzero.Prelude.Outcome.{Outcome, ok, err, plain, and_then}
use iamzero.Applier.Terraform.{ReadResult, contents, missing, failed}

pub data Kind : Type 0 where
  delete insert equal : Kind

pub record Line : Type 0 where
  pub kind : Kind
  pub content : String

pub record Hunk : Type 0 where
  pub from_line : ℕ
  pub to_line : ℕ
  pub lines : List Line

pub record Unified : Type 0 where
  pub from : String
  pub hunks : List Hunk

count_line : Kind → ℕ × ℕ → ℕ × ℕ
count_line delete (from_count, to_count) = (from_count + 1, to_count)
count_line insert (from_count, to_count) = (from_count, to_count + 1)
count_line equal (from_count, to_count) = (from_count + 1, to_count + 1)

pub count_lines : List Line → ℕ × ℕ → ℕ × ℕ
unfolding count_line
count_lines [] counts = counts
count_lines (l ∷ ls) counts = count_lines ls (count_line l.kind counts)

range_text : String → ℕ → ℕ → String
range_text sign line count =
    if ltb 1 count then sign <> (decimal line <> ("," <> decimal count)) else sign <> decimal line

module _ (red green : String → String) (ends_with_newline : String → Bool) where
  hunk_header : Hunk → String
  unfolding count_lines range_text
  hunk_header hunk =
      let counts = count_lines hunk.lines (0, 0) in
      "@@"
      <> (red (range_text " -" hunk.from_line counts.0)
          <> (green (range_text " +" hunk.to_line counts.1) <> " @@\n"))

  marked : Kind → String → String
  marked delete content = red ("-" <> content)
  marked insert content = green ("+" <> content)
  marked equal content = " " <> content

  line_text : Line → String
  unfolding marked
  line_text l =
      marked l.kind l.content
      <> (if ends_with_newline l.content then "" else "\n\\ No newline at end of file\n")

  lines_text : List Line → String
  unfolding line_text
  lines_text [] = ""
  lines_text (l ∷ ls) = line_text l <> lines_text ls

  hunks_text : List Hunk → String
  unfolding hunk_header lines_text
  hunks_text [] = ""
  hunks_text (h ∷ hs) = hunk_header h <> (lines_text h.lines <> hunks_text hs)

  named_hunks : String → List Hunk → String
  unfolding hunks_text
  named_hunks from [] = ""
  named_hunks from (h ∷ hs) = from <> ("\n" <> hunks_text (h ∷ hs))

  unfoldable pub format : Unified → String
  unfolding named_hunks
  format u = named_hunks u.from u.hunks

  -- A file that is not there reads as empty where new files are allowed.
  old_text : Bool → ReadResult → Outcome String
  old_text allow_new_files (contents text) = ok text
  old_text true (missing e) = ok ""
  old_text false (missing e) = err (plain e)
  old_text allow_new_files (failed e) = err (plain e)

  -- `unified` computes the edits from a text to another, and their hunks.
  unfoldable pub get_diff :
      (String → ReadResult) → (String → String → Unified) → String → String → Bool → Outcome String
  unfolding old_text format
  get_diff read_file unified file modified allow_new_files =
      and_then (old_text allow_new_files (read_file file))
        λ text. ok (format (unified text modified))
