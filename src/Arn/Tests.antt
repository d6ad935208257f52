-- ===== src/Arn/Tests.antt =====
-- Runs of pkg/recommendations/arn.go on the inputs of arn_test.go.
use iamzero.Prelude.{◌≡◌, refl, none, some}
use iamzero.Prelude.Outcome.{ok, err, plain}
use iamzero.Arn.Sessions.{session_arn, role_arn, extract_role_arn_from_session-session_arn}
use iamzero.Arn.{
  is_digit, is_name_char, get_role_or_user_name_from_arn, extract_role_arn_from_session,
}

name_of_session :
    get_role_or_user_name_from_arn
      "arn:aws:sts::123456789012:assumed-role/iamzero-test-role+=,.@-_/iamzero-test"
    ≡ ok "iamzero-test-role+=,.@-_"
unfolding get_role_or_user_name_from_arn
name_of_session = refl

name_of_user :
    get_role_or_user_name_from_arn "arn:aws:iam::123456789012:user/iamzero-test-user+=,.@-_"
    ≡ ok "iamzero-test-user+=,.@-_"
unfolding get_role_or_user_name_from_arn
name_of_user = refl

name_of_invalid :
    get_role_or_user_name_from_arn "arn:aws:iam::123456789012:assumed-role/iamzero-test-user"
    ≡ err (
        plain "could not find role in ARN arn:aws:iam::123456789012:assumed-role/iamzero-test-user")
unfolding get_role_or_user_name_from_arn
name_of_invalid = refl

role_of_session :
    extract_role_arn_from_session "arn:aws:sts::123456789012:assumed-role/test-role/iamzero-test"
    ≡ some "arn:aws:iam::123456789012:role/test-role"
unfolding extract_role_arn_from_session
role_of_session = refl

role_of_role : extract_role_arn_from_session "arn:aws:iam::123456789012:role/test-role" ≡ none
unfolding extract_role_arn_from_session
role_of_role = refl

session_arn_example :
    extract_role_arn_from_session (session_arn "123456789012" "test-role" "iamzero-test")
    ≡ some (role_arn "123456789012" "test-role")
unfolding is_digit is_name_char
session_arn_example =
    extract_role_arn_from_session-session_arn "123456789012" "test-role" "iamzero-test" refl refl
      refl
