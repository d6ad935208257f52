-- ===== src/Applier/Terraform/Findings.antt =====
-- calculateTerraformFinding.  The ARN of a resource is the address of the variable of the loop over
-- the statement's resources, one variable for the whole loop, so it is read as what that variable
-- holds when the loop is over.
use iamzero.Prelude.{String, Option, none, some, List, [], ◌∷◌, ◌++◌, map, if◌then◌else◌}
use iamzero.Prelude.Outcome.{Outcome, ok, panic, nil_pointer, and_then}
use iamzero.Policies.{AwsIamStatement}
use iamzero.Recommendations.{
  AwsAction, LeastPrivilegePolicy, Description, Finding, aws_iam_policy, other_policy, AnyPolicy,
}
use iamzero.Recommendations.Actions.{details, get_selected_advisory, is_active}
use iamzero.Applier.Terraform.{TerraformFinding, TerraformRecommendation, TerraformStatement}

-- What the loop's variable holds after the loop.
unfoldable pub loop_variable : List String → Option String
loop_variable [] = none
loop_variable (r ∷ []) = some r
loop_variable (r ∷ s ∷ rs) = loop_variable (s ∷ rs)

unfoldable pub terraform_statement : AwsIamStatement → TerraformStatement
unfolding loop_variable
terraform_statement s = record {
  resources = map (λ _. record { reference = "IAM"; arn = loop_variable s.resource }) s.resource;
  actions = s.action;
}

policy_statements : AnyPolicy → List TerraformStatement
unfolding terraform_statement
policy_statements (aws_iam_policy p) = map terraform_statement p.statement
policy_statements other_policy = []

terraform_statements : List Description → List TerraformStatement
unfolding policy_statements
terraform_statements [] = []
terraform_statements (d ∷ ds) = policy_statements d.policy ++ terraform_statements ds

-- advisory.Details() on a nil advisory dereferences it.
recommendation_of : Option LeastPrivilegePolicy → Outcome TerraformRecommendation
unfolding terraform_statements details
recommendation_of none = panic nil_pointer
recommendation_of (some p) = ok (record {
  type_name = "IAMInlinePolicy";
  statements = terraform_statements (details p).description;
})

terraform_recommendations : List AwsAction → Outcome (List TerraformRecommendation)
unfolding recommendation_of get_selected_advisory
terraform_recommendations [] = ok []
terraform_recommendations (alert ∷ actions) =
    let later = terraform_recommendations actions in
    if is_active alert
    then (and_then (recommendation_of (get_selected_advisory alert))
        λ rec. and_then later λ recs. ok (rec ∷ recs))
    else later

unfoldable pub calculate_terraform_finding : Finding → List AwsAction → Outcome TerraformFinding
unfolding terraform_recommendations
calculate_terraform_finding policy actions = and_then (terraform_recommendations actions) λ recs.
    ok (record { finding_id = policy.id; role = policy.identity.role; recommendations = recs })
