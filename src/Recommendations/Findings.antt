-- ===== src/Recommendations/Findings.antt =====
-- pkg/recommendations/finding.go.
pub mod Granted
use iamzero.Prelude.{
  String, Bool, ◌||◌, Option, none, some, List, [], ◌∷◌, ◌++◌, ◌==◌, if◌then◌else◌, length,
}
use iamzero.Prelude.Outcome.{Outcome, ok, panic, nil_pointer, and_then}
use iamzero.Policies.{AwsIamStatement}
use iamzero.Recommendations.{
  AwsAction, LeastPrivilegePolicy, Description, Finding, Time, aws_iam_policy, other_policy,
  AnyPolicy,
}
use iamzero.Recommendations.Actions.{details, get_selected_advisory, is_active}

abbrev pub policy_status_active : String
policy_status_active = "active"

abbrev pub policy_status_resolved : String
policy_status_resolved = "resolved"

policy_statements : AnyPolicy → List AwsIamStatement
policy_statements (aws_iam_policy p) = p.statement
policy_statements other_policy = []

described : List Description → List AwsIamStatement
unfolding policy_statements
described [] = []
described (d ∷ ds) = policy_statements d.policy ++ described ds

-- advisory.Details() on a nil advisory dereferences it.
advisory_statements : Option LeastPrivilegePolicy → Outcome (List AwsIamStatement)
unfolding described details
advisory_statements none = panic nil_pointer
advisory_statements (some p) = ok (described (details p).description)

-- The statements that one action adds.
pub action_statements : AwsAction → Outcome (List AwsIamStatement)
unfolding advisory_statements get_selected_advisory
action_statements a = if is_active a then advisory_statements (get_selected_advisory a) else ok []

unfoldable pub all_statements : List AwsAction → Outcome (List AwsIamStatement)
unfolding action_statements
all_statements [] = ok []
all_statements (a ∷ actions) =
    and_then (action_statements a) λ ss. and_then (all_statements actions) λ rest. ok (ss ++ rest)

-- `now` is what time.Now returns.
unfoldable pub recalculate_document : Time → List AwsAction → Finding → Outcome Finding
unfolding all_statements
recalculate_document now actions p = and_then (all_statements actions) λ statements. ok (record p {
  updated_at = now;
  event_count = length actions;
  document = record document { statement = statements };
})
  where
    open p use {document}

unfoldable pub finding_status_is_valid : String → Bool
finding_status_is_valid status = status == policy_status_active || status == policy_status_resolved
