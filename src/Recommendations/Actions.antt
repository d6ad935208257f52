-- ===== src/Recommendations/Actions.antt =====
-- pkg/recommendations/action.go, and the methods of LeastPrivilegePolicy that it calls.
pub mod Selection
use iamzero.Prelude.{
  String, Bool, true, ◌&&◌, Option, none, some, List, [], ◌∷◌, ◌==◌, if◌then◌else◌, select,
}
use iamzero.Prelude.Outcome.{Outcome, ok, err, plain}
use iamzero.Recommendations.{
  LeastPrivilegePolicy, AwsAction, RecommendationDetails, Description, aws_iam_policy,
}

abbrev pub get_id : LeastPrivilegePolicy → String
get_id r = r.id

get_description : LeastPrivilegePolicy → List Description
get_description a =
    record {
      applied_to = a.role_name;
      type_name = "IAM Policy";
      policy = aws_iam_policy a.aws_policy;
    }
    ∷ []

unfoldable pub details : LeastPrivilegePolicy → RecommendationDetails
unfolding get_description
details a = record {
  id = a.id;
  comment = a.comment;
  resources = a.resources;
  description = get_description a;
}

pub has_advisory : String → List LeastPrivilegePolicy → Bool
has_advisory id [] = Bool.false
has_advisory id (r ∷ rs) = if get_id r == id then true else has_advisory id rs

-- The action with the advisory selected, or the error, which leaves it as it was.
unfoldable pub select_advisory : String → AwsAction → Outcome AwsAction
unfolding has_advisory
select_advisory id a =
    if has_advisory id a.recommendations
    then ok (record a { selected_least_privilege_policy_id = id })
    else err (plain "could not find advisory")

unfoldable pub find_advisory : String → List LeastPrivilegePolicy → Option LeastPrivilegePolicy
find_advisory id [] = none
find_advisory id (r ∷ rs) = if get_id r == id then some r else find_advisory id rs

-- nil where no advisory has the selected identifier.
unfoldable pub get_selected_advisory : AwsAction → Option LeastPrivilegePolicy
unfolding find_advisory
get_selected_advisory a = find_advisory a.selected_least_privilege_policy_id a.recommendations

-- alert.Enabled && len(alert.Recommendations) > 0
abbrev pub is_active : AwsAction → Bool
is_active a = a.enabled && elim a.recommendations [ [] ↦ Bool.false | r ∷ rs ↦ true ]

unfoldable pub get_active : List AwsAction → List AwsAction
get_active actions = select is_active actions
