-- ===== src/Audit/Resources.antt =====
-- pkg/audit: CDKResourceStorage and GetPhysicalIDFromARNResource of auditor.go, and the work of
-- cloudformation.go on one stack.
pub mod Paths
use iamzero.Prelude.{
  String, Bool, true, false, not, ◌||◌, Option, none, some, List, [], ◌∷◌, ◌++◌, ◌==◌,
  if◌then◌else◌, ◌≡◌, refl, arith,
}
use iamzero.Prelude.Text.{◌<>◌, split}
use iamzero.Prelude.Outcome.{Outcome, ok, err, panic, plain, index_out_of_range, and_then}
use iamzero.Policies.{CdkResource}

unfoldable pub get_by_physical_id : String → List CdkResource → Option CdkResource
get_by_physical_id id [] = none
get_by_physical_id id (r ∷ rs) = if r.physical_id == id then some r else get_by_physical_id id rs

second : String → List String → Outcome String
second resource (s ∷ t ∷ ts) = ok t
second resource _ = err (plain ("could not split " <> resource <> " into a Physical ID"))

unfoldable pub get_physical_id_from_arn_resource : String → Outcome String
unfolding second split
get_physical_id_from_arn_resource resource = second resource (split b'/' resource)

-- split[len(split)-2]: with one part the index is -1.
second_last : List String → Outcome String
second_last [] = ok ""
second_last (s ∷ []) = panic index_out_of_range
second_last (s ∷ t ∷ []) = ok s
second_last (s ∷ t ∷ u ∷ ts) = second_last (t ∷ u ∷ ts)

unfoldable pub parse_id_from_cdk_path : String → Outcome String
unfolding second_last split
parse_id_from_cdk_path path = second_last (split b'/' path)

-- What ListStackResources says of a resource.
pub record StackResourceSummary : Type 0 where
  pub resource_type : String
  pub logical_resource_id : String
  pub physical_resource_id : String

abbrev is_metadata : StackResourceSummary → Bool
is_metadata r = r.resource_type == "AWS::CDK::Metadata"

unfoldable pub is_cdk_stack : List StackResourceSummary → Bool
is_cdk_stack [] = false
is_cdk_stack (r ∷ rs) = if is_metadata r then true else is_cdk_stack rs

-- A resource, with the path that its stack's template has for it and the identifier in that path.
cdk_resource : String → String → (String → String) → StackResourceSummary → Outcome CdkResource
unfolding parse_id_from_cdk_path
cdk_resource stack_id account_id cdk_path r =
    let path = cdk_path r.logical_resource_id in
    and_then (parse_id_from_cdk_path path) λ id. ok (record {
      stack_id = stack_id;
      logical_id = r.logical_resource_id;
      physical_id = r.physical_resource_id;
      account_id = account_id;
      cdk_path = path;
      cdk_id = id;
      type_name = r.resource_type;
    })

-- `cdk_path` is obj.Resources[id].Metadata.AwsCdkPath, "" for an identifier that is missing.
unfoldable pub resources_in_stack :
    String → String → (String → String) → List StackResourceSummary → Outcome (List CdkResource)
unfolding cdk_resource
resources_in_stack stack_id account_id cdk_path [] = ok []
resources_in_stack stack_id account_id cdk_path (r ∷ rs) =
    let rest = resources_in_stack stack_id account_id cdk_path rs in
    if is_metadata r
    then rest
    else and_then (cdk_resource stack_id account_id cdk_path r) λ x. and_then rest λ xs. ok (x ∷ xs)

-- The resources that one stack adds to the storage.
unfoldable pub load_stack :
    String
    → String
    → (String → String)
    → List StackResourceSummary
    → List CdkResource
    → Outcome (List CdkResource)
unfolding resources_in_stack is_cdk_stack
load_stack stack_id account_id cdk_path rs known =
    if is_cdk_stack rs
    then and_then (resources_in_stack stack_id account_id cdk_path rs) (λ xs. ok (known ++ xs))
    else ok known
