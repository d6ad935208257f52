-- ===== src/Config.antt =====
-- pkg/config/env_file_parser.go.  The lines are those that bufio.Scanner finds, and `lower` is
-- strings.ToLower.
pub mod Settings
mod Tests
use Prim.Native.Char.{Char, code}
use iamzero.Prelude.{
  String, Bool, true, false, ◌&&◌, ◌||◌, Option, none, some, List, [], ◌∷◌, eqb, leb, ◌==◌,
  if◌then◌else◌,
}
use iamzero.Prelude.Text.{◌<>◌, is_char}
use iamzero.Prelude.Scan.{after_literal}
use iamzero.Prelude.Words.{trim, cut, replace_char}
use iamzero.Prelude.Outcome.{Outcome, ok, err, panic, plain, Exec, ◌>>=◌, ◌>>◌, pure, lift}

-- unicode.IsSpace.
is_space : Char → Bool
is_space c =
    (leb 9 (code c) && leb (code c) 13)
    || eqb (code c) 32
    || eqb (code c) 133
    || eqb (code c) 160
    || eqb (code c) 5760
    || (leb 8192 (code c) && leb (code c) 8202)
    || eqb (code c) 8232
    || eqb (code c) 8233
    || eqb (code c) 8239
    || eqb (code c) 8287
    || eqb (code c) 12288

unfoldable pub trim_space : String → String
unfolding trim is_space
trim_space s = trim is_space s

unfoldable pub maybe_remove_prefix : String → String → String
unfolding after_literal
maybe_remove_prefix key prefix =
    if prefix == ""
    then key
    else elim (after_literal (prefix <> "_") key) [ none ↦ key | some rest ↦ rest ]

-- The value without a comment behind it.
unfoldable pub without_comment : String → String
unfolding cut trim_space
without_comment value = elim (cut " #" value) [
  | none ↦ value
  | some (before, comment) ↦ trim_space before
]

unfoldable pub starts_comment : String → Bool
starts_comment String.[] = false
starts_comment (String.◌∷◌ c s) = is_char b'#' c

module _ (lower : String → String) (prefix : String) where
  unfoldable pub key_of : String → String
  unfolding maybe_remove_prefix replace_char
  key_of name = replace_char b'_' "-" (lower (maybe_remove_prefix name prefix))

  setting_of : Option (String × String) → Outcome (Option (String × String))
  unfolding key_of without_comment trim_space
  setting_of none = err (plain "invalid .env file")
  setting_of (some (name, value)) = ok (some (key_of name, without_comment (trim_space value)))

  -- The setting of a line, none where the line is empty or a comment.
  unfoldable pub parse_line : String → Outcome (Option (String × String))
  unfolding trim_space starts_comment cut setting_of
  parse_line text =
      let line = trim_space text in
      if line == ""
      then ok none
      else if starts_comment line
      then ok none
      else setting_of (cut "=" line)

  module _ {S : Type 0} (set : String → String → Exec S (Unit {0})) where
    apply_setting : Option (String × String) → Exec S (Unit {0})
    apply_setting none = pure tt
    apply_setting (some (name, value)) = set name value

    unfoldable pub env_file_parser : List String → Exec S (Unit {0})
    unfolding parse_line apply_setting
    env_file_parser [] = pure tt
    env_file_parser (line ∷ lines) =
        let later = env_file_parser lines in
        lift (parse_line line) >>= λ setting. apply_setting setting >> later
