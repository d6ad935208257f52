-- ===== src/Arn/Sessions.antt =====
-- Session ARNs, role ARNs, and the names in them.
use iamzero.Prelude.{String, ◌≡◌, refl, true, none, some, ap, subst}
use iamzero.Prelude.Text.{◌<>◌, all_chars, append_assoc, append_nil, cons-append}
use iamzero.Prelude.Outcome.{ok}
use iamzero.Prelude.Scan.{
  exactly, after_literal, run_of_some, after_literal-append, run_of_exactly-append,
  run_of_some-append, after_literal-differ, run_of_some-exactly,
}
use iamzero.Arn.Scanning.{find_submatch-here}
use iamzero.Arn.{
  is_digit, is_name_char, read_session, read_name, read_iam, read_assumed_role, named,
  get_role_or_user_name_from_arn, extract_role_arn_from_session,
}

-- What the expressions take for the name of a role, a user or a session.
abbrev pub IsName : String → Type 0
IsName String.[] = ⊥
IsName (String.◌∷◌ c t) = all_chars is_name_char (String.◌∷◌ c t) ≡ true

abbrev pub IsAccount : String → Type 0
IsAccount a = exactly 12 is_digit a ≡ true

abbrev pub session_arn : String → String → String → String
session_arn account role session =
    "arn:aws:sts::" <> account <> ":assumed-role/" <> role <> "/" <> session

abbrev pub role_arn : String → String → String
role_arn account role = "arn:aws:iam::" <> account <> ":role/" <> role

run_of_some-all : (t : String) → IsName t → run_of_some is_name_char t ≡ some (t, "")
run_of_some-all String.[] h = absurd h
run_of_some-all (String.◌∷◌ c t) h =
    subst (λ x. run_of_some is_name_char x ≡ some (String.◌∷◌ c t, ""))
      (append_nil (String.◌∷◌ c t)) (run_of_some-append is_name_char c t "" h tt)

run_of_some-slash :
    (t s : String) → IsName t → run_of_some is_name_char (t <> "/" <> s) ≡ some (t, "/" <> s)
run_of_some-slash String.[] s h = absurd h
run_of_some-slash (String.◌∷◌ c t) s h =
    run_of_some-append is_name_char c t ("/" <> s) h
      (rw (cons-append "/" "" s) (unfold is_name_char is_digit in refl))

read_session-at :
    (account role session : String)
    → IsAccount account
    → IsName role
    → IsName session
    → read_session (session_arn account role session) ≡ some (account, role)
unfolding read_session
read_session-at a r s ha hr hs = simp (
  after_literal-append,
  run_of_exactly-append 12 is_digit a _ ha,
  run_of_some-slash r _ hr,
  run_of_some-all s hs,
)

iam_start : (t : String) → "arn:aws:iam::" <> t ≡ "arn:aws:" <> "iam::" <> t
iam_start t = append_assoc "arn:aws:" "iam::" t

not_session : (t : String) → read_assumed_role ("iam::" <> t) ≡ none
unfolding read_assumed_role
not_session t = simp (after_literal-differ "s" "i" "ts::" "am::" t refl)

not_user : (t : String) → after_literal ":user" (":role/" <> t) ≡ none
unfolding after_literal
not_user t = rw (cons-append ":" "role/" t, cons-append "r" "ole/" t)

at_role : (t : String) → after_literal ":role" (":role/" <> t) ≡ some ("/" <> t)
at_role t = rw (append_assoc ":role" "/" t) (after_literal-append ":role" ("/" <> t))

read_name-role :
    (account role : String)
    → IsAccount account
    → IsName role
    → read_name (role_arn account role) ≡ some role
unfolding read_name read_iam
read_name-role a r ha hr = rw iam_start (
    simp (
      after_literal-append,
      not_session,
      run_of_exactly-append 12 is_digit a _ ha,
      not_user,
      at_role,
      run_of_some-all r hr,
    ))

digits_run :
    (a s : String)
    → IsAccount a
    → run_of_some is_digit (a <> ":assumed-role/" <> s) ≡ some (a, ":assumed-role/" <> s)
digits_run a s h =
    run_of_some-exactly 11 is_digit a (":assumed-role/" <> s) h
      (rw (cons-append ":" "assumed-role/" s) (unfold is_digit in refl))

at_assumed : (t : String) → after_literal ":assumed-role" (":assumed-role/" <> t) ≡ some ("/" <> t)
at_assumed t =
    rw (append_assoc ":assumed-role" "/" t) (after_literal-append ":assumed-role" ("/" <> t))

read_name-session :
    (account role session : String)
    → IsAccount account
    → IsName role
    → read_name (session_arn account role session) ≡ some role
unfolding read_name read_assumed_role
read_name-session a r s ha hr =
    rw (append_assoc "arn:aws:" "sts::" (a <> ":assumed-role/" <> r <> "/" <> s))
      (simp (after_literal-append, digits_run a _ ha, at_assumed, run_of_some-slash r _ hr))

-- For an account of twelve digits and valid names, the ARN of an assumed-role session is turned
-- into the ARN of the role, in the same account.
pub extract_role_arn_from_session-session_arn :
    (account role session : String)
    → IsAccount account
    → IsName role
    → IsName session
    → extract_role_arn_from_session (session_arn account role session)
      ≡ some (role_arn account role)
unfolding extract_role_arn_from_session
extract_role_arn_from_session-session_arn a r s ha hr hs =
    rw (find_submatch-here read_session (session_arn a r s) (read_session-at a r s ha hr hs))

-- The name found in the ARN of a session, and in that of the role itself, is the role's name.
pub name-session-role_arn :
    (account role session : String)
    → IsAccount account
    → IsName role
    → (get_role_or_user_name_from_arn (session_arn account role session) ≡ ok role)
      × (get_role_or_user_name_from_arn (role_arn account role) ≡ ok role)
unfolding get_role_or_user_name_from_arn
name-session-role_arn a r s ha hr = (
  ap (named (session_arn a r s))
      (find_submatch-here read_name (session_arn a r s) (read_name-session a r s ha hr)),
  ap (named (role_arn a r))
      (find_submatch-here read_name (role_arn a r) (read_name-role a r ha hr)),
)
