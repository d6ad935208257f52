-- ===== src/Audit/Loading/Tests.antt =====
-- Runs of LoadResources on an account with two roles and an attached policy whose document is known.
use mathlib.Core.List.Perm
use mathlib.Core.List.{Perm}
use iamzero.Prelude.{true, String, ◌≡◌, refl, none, List, [], ◌∷◌, ◌++◌}
use iamzero.Prelude.Outcome.{ok, err, plain}
use iamzero.Policies.{AwsIamPolicy}
use iamzero.Runtime.{ParsedArn}
use iamzero.Audit.{Auditor, AwsRole, TrustPolicyDocument}
use iamzero.Audit.Loading.{
  Outside, IamClient, CfnClient, IamRoleSummary, load_resources, load_cloud_formation_stacks,
}
use iamzero.Audit.Loading.Added.{role_arns}
use iamzero.Audit.Loading.Roles.{listed_arns, load_resources-listed}

abbrev document : AwsIamPolicy
document = record { version = "2012-10-17"; id = none; statement = [] }

abbrev trust : TrustPolicyDocument
trust = record { version = "2012-10-17"; statement = [] }

abbrev summary : String → IamRoleSummary
summary arn = record { arn = arn; role_name = arn; assume_role_policy_document = "trust" }

abbrev client : IamClient
client = record {
  list_policies = ok (record { arn = "policy"; default_version_id = "v1" } ∷ []);
  get_policy_version = λ arn version. ok "document";
  list_roles = ok (summary "reader" ∷ summary "writer" ∷ []);
  list_attached_role_policies = λ name. ok ("policy" ∷ "other" ∷ []);
  list_role_policies = λ name. ok [];
  get_role_policy = λ name policy. err (plain "no such policy");
}

abbrev stacks : CfnClient
stacks = record {
  list_stacks = ok [];
  list_stack_resources = λ id. ok [];
  get_template = λ id. err (plain "no template");
}

abbrev parsed : ParsedArn
parsed = record { account_id = "123456789012"; resource = "role" }

-- Of two goroutines, the one that was started last ends first.
abbrev turned : List IamRoleSummary → List IamRoleSummary
turned (r ∷ s ∷ []) = s ∷ r ∷ []
turned rs = rs

abbrev outside : Outside
outside = record {
  load_default_config = ok tt;
  iam_client = λ role. client;
  cfn_client = λ role. stacks;
  parse_arn = λ arn. ok parsed;
  query_unescape = λ text. ok text;
  unmarshal_policy = λ text. ok document;
  unmarshal_trust = λ text. ok trust;
  unmarshal_template = λ text. ok (λ id. "");
  order_of_policies = λ ps. ps;
  order_of_roles = turned;
  goes_on = λ arn. true;
}

abbrev auditor : List String → Auditor
auditor roles = record {
  audit_roles = roles;
  policy_map = [];
  iam_roles = [];
  links = [];
  cdk_resources = [];
}

abbrev loaded_role : String → AwsRole
loaded_role arn = record {
  arn = arn;
  account_id = "123456789012";
  managed_policies = record { arn = "policy"; document = document } ∷ [];
  inline_policies = [];
  trust_policy_document = trust;
}

abbrev loaded : Auditor
loaded = record (auditor ("audit" ∷ [])) {
  policy_map = ("policy", document) ∷ [];
  iam_roles = loaded_role "writer" ∷ loaded_role "reader" ∷ [];
}

loads : load_resources outside (auditor ("audit" ∷ [])) ≡ (ok tt, loaded)
unfolding load_resources
loads = refl

no_roles : load_resources outside (auditor []) ≡ (err (plain "no audit roles supplied"), auditor [])
unfolding load_resources
no_roles = refl

no_stacks :
    load_cloud_formation_stacks outside (auditor ("audit" ∷ [])) ≡ (ok tt, auditor ("audit" ∷ []))
unfolding load_cloud_formation_stacks
no_stacks = refl

turned-Perm : (rs : List IamRoleSummary) → Perm (turned rs) rs
turned-Perm [] = Perm.rfl
turned-Perm (r ∷ []) = Perm.rfl
turned-Perm (r ∷ s ∷ []) = Perm.swap r s []
turned-Perm (r ∷ s ∷ t ∷ rs) = Perm.rfl

load_resources-listed_example :
    (arns : List String) × (role_arns loaded ≡ role_arns (auditor ("audit" ∷ [])) ++ arns)
    × Perm arns (listed_arns outside ("audit" ∷ []))
load_resources-listed_example =
    load_resources-listed outside (auditor ("audit" ∷ [])) loaded turned-Perm loads
