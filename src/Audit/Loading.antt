-- ===== src/Audit/Loading.antt =====
-- LoadResources, fetchPolicyDetails and FetchDetailsForRole of pkg/audit/auditor.go, and
-- LoadCloudFormationStacks of cloudformation.go, over the clients of AWS, which are asked in the
-- name of a role and read only.  A goroutine of a group changes the auditor once, under a lock, as the
-- last thing that it does: a group is a list of goroutines in the order in which they come to their
-- ends, which is a parameter.  A goroutine that ends behind the first failure may be cancelled.
pub mod Added
pub mod Roles
mod Tests
use iamzero.Prelude.{String, Bool, true, false, if◌then◌else◌, Option, none, some, List, [], ◌∷◌}
use iamzero.Prelude.Assoc.{lookup, insert}
use iamzero.Prelude.Outcome.{
  Outcome, ok, err, panic, plain, Error, Exec, ◌>>=◌, ◌>>◌, pure, lift, and_then,
}
use iamzero.Policies.{AwsIamPolicy}
use iamzero.Runtime.{ParsedArn}
use iamzero.Audit.{Auditor, AwsRole, ManagedPolicy, InlinePolicy, TrustPolicyDocument, add_role}
use iamzero.Audit.Resources.{StackResourceSummary, is_cdk_stack, load_stack}

pub record IamPolicySummary : Type 0 where
  pub arn : String
  pub default_version_id : String

pub record IamRoleSummary : Type 0 where
  pub arn : String
  pub role_name : String
  pub assume_role_policy_document : String

pub record IamClient : Type 0 where
  pub list_policies : Outcome (List IamPolicySummary)
  pub get_policy_version : String → String → Outcome String
  pub list_roles : Outcome (List IamRoleSummary)
  pub list_attached_role_policies : String → Outcome (List String)
  pub list_role_policies : String → Outcome (List String)
  pub get_role_policy : String → String → Outcome String

pub record CfnClient : Type 0 where
  pub list_stacks : Outcome (List String)
  pub list_stack_resources : String → Outcome (List StackResourceSummary)
  pub get_template : String → Outcome String

-- What stands outside: the configuration, the clients of a role, the parser of ARNs, url escapes,
-- the decoding of documents and of the CDK paths in a template, the order in which the goroutines of
-- a group end, and whether the goroutine of an ARN does its work although another has failed.
pub record Outside : Type 0 where
  pub load_default_config : Outcome (Unit {0})
  pub iam_client : String → IamClient
  pub cfn_client : String → CfnClient
  pub parse_arn : String → Outcome ParsedArn
  pub query_unescape : String → Outcome String
  pub unmarshal_policy : String → Outcome AwsIamPolicy
  pub unmarshal_trust : String → Outcome TrustPolicyDocument
  pub unmarshal_template : String → Outcome (String → String)
  pub order_of_policies : List IamPolicySummary → List IamPolicySummary
  pub order_of_roles : List IamRoleSummary → List IamRoleSummary
  pub goes_on : String → Bool

-- errgroup: Wait returns the first error, and a panic of a goroutine ends the program.
module _ {R : Type 0} (goes_on : R → Bool) (run : R → Exec Auditor (Unit {0})) where
  ignoring : Outcome (Unit {0}) × Auditor → Exec Auditor (Unit {0}) → Outcome (Unit {0}) × Auditor
  ignoring (ok u, a) rest = rest a
  ignoring (err e, a) rest = rest a
  ignoring (panic p, a) rest = (panic p, a)

  -- What is left to do behind the first failure.
  failed_group : Error → List R → Exec Auditor (Unit {0})
  unfolding ignoring
  failed_group first [] = lift (err first)
  failed_group first (r ∷ rs) =
      let rest = failed_group first rs in λ a. if goes_on r then ignoring (run r a) rest else rest a

  after_goroutine :
      Outcome (Unit {0}) × Auditor
      → Exec Auditor (Unit {0})
      → (Error → Exec Auditor (Unit {0}))
      → Outcome (Unit {0}) × Auditor
  after_goroutine (ok u, a) rest failed = rest a
  after_goroutine (err e, a) rest failed = failed e a
  after_goroutine (panic p, a) rest failed = (panic p, a)

  pub run_group : List R → Exec Auditor (Unit {0})
  unfolding failed_group after_goroutine
  run_group [] = pure tt
  run_group (r ∷ rs) =
      let rest = run_group rs in λ a. after_goroutine (run r a) rest (λ e. failed_group e rs)

module _ (outside : Outside) where
  open outside use {parse_arn, query_unescape, unmarshal_policy, unmarshal_trust}

  store_policy : String → AwsIamPolicy → Exec Auditor (Unit {0})
  unfolding insert
  store_policy arn doc a = (ok tt, record a { policy_map = insert arn doc a.policy_map })

  -- The policy that an escaped document holds.
  policy_of : Outcome String → Outcome AwsIamPolicy
  policy_of document =
      and_then document λ text. and_then (query_unescape text) λ s. unmarshal_policy s

  unfoldable pub fetch_policy_details : IamClient → IamPolicySummary → Exec Auditor (Unit {0})
  unfolding policy_of store_policy
  fetch_policy_details client p =
      lift (policy_of (client.get_policy_version p.arn p.default_version_id)) >>= λ doc.
      store_policy p.arn doc

  found_policy : String → Option AwsIamPolicy → List ManagedPolicy → List ManagedPolicy
  found_policy arn none rest = rest
  found_policy arn (some policy) rest = record { arn = arn; document = policy } ∷ rest

  -- The attached policies whose documents are known.
  unfoldable pub managed_policies_of :
      List (String × AwsIamPolicy) → List String → Outcome (List ManagedPolicy)
  unfolding lookup found_policy
  managed_policies_of policy_map [] = ok []
  managed_policies_of policy_map (arn ∷ arns) = and_then (parse_arn arn) λ parsed.
      and_then (managed_policies_of policy_map arns)
        λ rest. ok (found_policy arn (lookup arn policy_map) rest)

  unfoldable pub inline_policies_of : IamClient → String → List String → Outcome (List InlinePolicy)
  unfolding policy_of
  inline_policies_of client role_name [] = ok []
  inline_policies_of client role_name (p ∷ names) =
      and_then (policy_of (client.get_role_policy p role_name)) λ doc.
        and_then (inline_policies_of client role_name names)
          λ rest. ok (record { name = p; document = doc } ∷ rest)

  -- The role with its policies.
  unfoldable pub details_of_role :
      IamClient → List (String × AwsIamPolicy) → IamRoleSummary → Outcome AwsRole
  unfolding managed_policies_of inline_policies_of
  details_of_role client policy_map r = and_then (parse_arn r.arn) λ arn_parsed.
      and_then (query_unescape r.assume_role_policy_document) λ s.
        and_then (unmarshal_trust s) λ doc.
          and_then (client.list_attached_role_policies r.role_name) λ attached.
            and_then (managed_policies_of policy_map attached) λ managed.
              and_then (client.list_role_policies r.role_name) λ names.
                and_then (inline_policies_of client r.role_name names) λ inline. ok (record {
                  arn = r.arn;
                  account_id = arn_parsed.account_id;
                  managed_policies = managed;
                  inline_policies = inline;
                  trust_policy_document = doc;
                })

  store_role : AwsRole → Exec Auditor (Unit {0})
  unfolding add_role
  store_role role a = (ok tt, add_role role a)

  unfoldable pub fetch_details_for_role : IamClient → IamRoleSummary → Exec Auditor (Unit {0})
  unfolding details_of_role store_role
  fetch_details_for_role client r a =
      (lift (details_of_role client a.policy_map r) >>= store_role) a

  fetch_policies : IamClient → List IamPolicySummary → Exec Auditor (Unit {0})
  unfolding fetch_policy_details run_group
  fetch_policies client ps =
      run_group (λ p. outside.goes_on p.arn) (fetch_policy_details client)
        (outside.order_of_policies ps)

  fetch_roles : IamClient → List IamRoleSummary → Exec Auditor (Unit {0})
  unfolding fetch_details_for_role run_group
  fetch_roles client rs =
      run_group (λ r. outside.goes_on r.arn) (fetch_details_for_role client)
        (outside.order_of_roles rs)

  load_account : IamClient → Exec Auditor (Unit {0})
  unfolding fetch_policies fetch_roles
  load_account client = lift client.list_policies >>= λ policies.
      fetch_policies client policies
      >> (lift client.list_roles >>= λ roles. fetch_roles client roles)

  load_accounts : List String → Exec Auditor (Unit {0})
  unfolding load_account
  load_accounts [] = pure tt
  load_accounts (role ∷ roles) = load_account (outside.iam_client role) >> load_accounts roles

  -- Without audit roles there is nothing to load from.
  with_roles : List String → Exec Auditor (Unit {0}) → Exec Auditor (Unit {0})
  with_roles [] load = lift (err (plain "no audit roles supplied"))
  with_roles (r ∷ rs) load = lift outside.load_default_config >> load

  unfoldable pub load_resources : Exec Auditor (Unit {0})
  unfolding with_roles load_accounts
  load_resources a = with_roles a.audit_roles (load_accounts a.audit_roles) a

  -- The paths in the template of a CDK stack; no template is read of another stack.
  template_of : CfnClient → String → List StackResourceSummary → Outcome (String → String)
  unfolding is_cdk_stack
  template_of client stack_id resources = elim (is_cdk_stack resources) [
    | true ↦ and_then (client.get_template stack_id) λ body. outside.unmarshal_template body
    | false ↦ ok (λ id. "")
  ]

  add_stack :
      String → String → List StackResourceSummary → (String → String) → Exec Auditor (Unit {0})
  unfolding load_stack
  add_stack stack_id account_id resources paths a =
      (lift (load_stack stack_id account_id paths resources a.cdk_resources) >>= λ known.
      λ b. (ok tt, record b { cdk_resources = known }))
        a

  load_cdk_stack : CfnClient → String → Exec Auditor (Unit {0})
  unfolding template_of add_stack
  load_cdk_stack client stack_id = lift (parse_arn stack_id) >>= λ stack_arn.
      lift (client.list_stack_resources stack_id) >>= λ resources.
      lift (template_of client stack_id resources) >>= λ paths.
      add_stack stack_id stack_arn.account_id resources paths

  load_cdk_stacks : CfnClient → List String → Exec Auditor (Unit {0})
  unfolding load_cdk_stack
  load_cdk_stacks client [] = pure tt
  load_cdk_stacks client (s ∷ ss) = load_cdk_stack client s >> load_cdk_stacks client ss

  load_stacks_of_roles : List String → Exec Auditor (Unit {0})
  unfolding load_cdk_stacks
  load_stacks_of_roles [] = pure tt
  load_stacks_of_roles (role ∷ roles) = lift ((outside.cfn_client role).list_stacks) >>= λ stacks.
      load_cdk_stacks (outside.cfn_client role) stacks >> load_stacks_of_roles roles

  unfoldable pub load_cloud_formation_stacks : Exec Auditor (Unit {0})
  unfolding with_roles load_stacks_of_roles
  load_cloud_formation_stacks a = with_roles a.audit_roles (load_stacks_of_roles a.audit_roles) a
