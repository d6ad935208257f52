-- ===== src/Arn.antt =====
-- pkg/recommendations/arn.go: the names and role ARNs that two regular expressions find in an ARN.
-- Package regexp is read as follows. Both expressions are sequences of literals, fixed or maximal
-- runs of a character class, and one alternation of literals; in each, what follows a run lies
-- outside its class, so that the leftmost match is found by trying each position in turn and
-- reading every run as far as it goes.
pub mod Scanning
pub mod Sessions
mod Tests
use Prim.Native.Char.{Char, code}
use Prim.Native.String
use iamzero.Prelude.{
  ℕ, zero, suc, String, Bool, true, false, ◌&&◌, ◌||◌, Option, none, some, leb, eqb, if◌then◌else◌,
}
use iamzero.Prelude.Text.{is_char, ◌<>◌}
use iamzero.Prelude.Scan.{after_literal, run_of_some, run_of_exactly}
use iamzero.Prelude.Outcome.{Outcome, ok, err, plain}

-- [\d]
pub is_digit : Char → Bool
is_digit c = leb b'0' (code c) && leb (code c) b'9'

-- [\w\d+=,.@_-]
pub is_name_char : Char → Bool
unfolding is_digit
is_name_char c =
    is_digit c
    || (leb b'A' (code c) && leb (code c) b'Z')
    || (leb b'a' (code c) && leb (code c) b'z')
    || is_char b'_' c
    || is_char b'+' c
    || is_char b'=' c
    || is_char b',' c
    || is_char b'.' c
    || is_char b'@' c
    || is_char b'-' c

-- FindStringSubmatch: the match at the first position where there is one.
pub find_submatch {ℓ} : {A : Type ℓ} → (String → Option A) → String → Option A
find_submatch m String.[] = m ""
find_submatch m (String.◌∷◌ c s) =
    let later = find_submatch m s in elim (m (String.◌∷◌ c s)) [ none ↦ later | some a ↦ some a ]

-- (?:a|b): the second where the first does not match.
abbrev or_else {ℓ} : {A : Type ℓ} → Option A → Option A → Option A
or_else (some a) o = some a
or_else none o = o

abbrev then_read {ℓ κ} : {A : Type ℓ} {B : Type κ} → Option A → (A → Option B) → Option B
then_read none f = none
then_read (some a) f = f a

-- sts::[\d]+:assumed-role
pub read_assumed_role : String → Option String
unfolding after_literal run_of_some is_digit
read_assumed_role s =
    then_read (after_literal "sts::" s)
      λ a. then_read (run_of_some is_digit a) λ r. after_literal ":assumed-role" r.1

-- iam::\d{12}:user, and the same for role
pub read_iam : String → String → Option String
unfolding after_literal run_of_exactly is_digit
read_iam kind s =
    then_read (after_literal "iam::" s)
      λ a. then_read (run_of_exactly 12 is_digit a) λ r. after_literal (":" <> kind) r.1

-- The first expression at one position; what the last group captured.
pub read_name : String → Option String
unfolding read_assumed_role read_iam is_name_char
read_name s = then_read (after_literal "arn:aws:" s) λ a.
    then_read (or_else (read_assumed_role a) (or_else (read_iam "user" a) (read_iam "role" a)))
      λ b. then_read (after_literal "/" b) λ c. then_read (run_of_some is_name_char c) λ r. some r.0

named : String → Option String → Outcome String
named arn none = err (plain ("could not find role in ARN " <> arn))
named arn (some role) = ok role

unfoldable pub get_role_or_user_name_from_arn : String → Outcome String
unfolding find_submatch read_name named
get_role_or_user_name_from_arn arn = named arn (find_submatch read_name arn)

-- The second expression at one position; the account and the role name.
pub read_session : String → Option (String × String)
unfolding after_literal run_of_exactly run_of_some is_digit is_name_char
read_session s = then_read (after_literal "arn:aws:sts::" s) λ a.
    then_read (run_of_exactly 12 is_digit a) λ account.
      then_read (after_literal ":assumed-role/" account.1) λ b.
        then_read (run_of_some is_name_char b) λ role.
          then_read (after_literal "/" role.1)
            λ c. then_read (run_of_some is_name_char c) λ session. some (account.0, role.0)

-- The Go function has an error result too, for an expression that does not compile; it does.
unfoldable pub extract_role_arn_from_session : String → Option String
unfolding find_submatch read_session
extract_role_arn_from_session arn =
    then_read (find_submatch read_session arn) λ m. some ("arn:aws:iam::" <> m.0 <> ":role/" <> m.1)
