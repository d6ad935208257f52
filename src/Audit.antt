-- ===== src/Audit.antt =====
-- pkg/audit: the roles and the CDK resources of the audited accounts.  An AWS client, url
-- escapes and YAML stand outside: the functions here take what they return.
pub mod Assume
pub mod Links
pub mod Resources
pub mod Fixture
pub mod Loading
mod Tests
use iamzero.Prelude.{
  ℕ, suc, String, Bool, true, false, ◌&&◌, Option, none, some, List, [], ◌∷◌, ◌++◌, ◌==◌,
  if◌then◌else◌,
}
use iamzero.Prelude.Outcome.{Outcome, ok, panic, nil_pointer, and_then}
use iamzero.Policies.{AwsIamPolicy, AwsIamStatement, AwsIamPrincipal, CdkResource}

pub record ManagedPolicy : Type 0 where
  pub arn : String
  pub document : AwsIamPolicy

pub record InlinePolicy : Type 0 where
  pub name : String
  pub document : AwsIamPolicy

pub record TrustPolicyDocument : Type 0 where
  pub version : String
  pub statement : List AwsIamStatement

pub record AwsRole : Type 0 where
  pub arn : String
  pub account_id : String
  pub managed_policies : List ManagedPolicy
  pub inline_policies : List InlinePolicy
  pub trust_policy_document : TrustPolicyDocument

pub record AssumeRoleLink : Type 0 where
  pub id : String
  pub source_arn : String
  pub target_arn : String

-- The loops that set a flag when they meet a text.
pub mentions : String → List String → Bool
mentions t [] = false
mentions t (s ∷ ss) = if s == t then true else mentions t ss

pub statement_allows_target_role_assumption : AwsIamStatement → AwsRole → Bool
unfolding mentions
statement_allows_target_role_assumption s target =
    if mentions "sts:AssumeRole" s.action then mentions target.arn s.resource else false

-- s.Principal.AWS dereferences the principal.
principal_is : Option AwsIamPrincipal → String → Outcome Bool
principal_is none arn = panic nil_pointer
principal_is (some p) arn = ok (p.aws == arn)

pub trust_policy_statement_allows_source_role_assumption : AwsIamStatement → AwsRole → Outcome Bool
unfolding mentions principal_is
trust_policy_statement_allows_source_role_assumption s source =
    if mentions "sts:AssumeRole" s.action then principal_is s.principal source.arn else ok false

pub managed_statements : List ManagedPolicy → List AwsIamStatement
managed_statements [] = []
managed_statements (p ∷ ps) = p.document.statement ++ managed_statements ps

pub inline_statements : List InlinePolicy → List AwsIamStatement
inline_statements [] = []
inline_statements (p ∷ ps) = p.document.statement ++ inline_statements ps

pub some_statement_allows : List AwsIamStatement → AwsRole → Bool
unfolding statement_allows_target_role_assumption
some_statement_allows [] target = false
some_statement_allows (s ∷ ss) target =
    if statement_allows_target_role_assumption s target
    then true
    else some_statement_allows ss target

unfoldable pub has_policy_to_assume_target : AwsRole → AwsRole → Bool
unfolding some_statement_allows managed_statements inline_statements
has_policy_to_assume_target a target =
    some_statement_allows
      (managed_statements a.managed_policies ++ inline_statements a.inline_policies) target

pub some_trust_allows : List AwsIamStatement → AwsRole → Outcome Bool
unfolding trust_policy_statement_allows_source_role_assumption
some_trust_allows [] source = ok false
some_trust_allows (s ∷ ss) source =
    and_then (trust_policy_statement_allows_source_role_assumption s source)
      λ allowed. if allowed then ok true else some_trust_allows ss source

unfoldable pub has_trust_relationship_allowing_source_assumption : AwsRole → AwsRole → Outcome Bool
unfolding some_trust_allows
has_trust_relationship_allowing_source_assumption a source =
    some_trust_allows a.trust_policy_document.statement source

-- Both tests are made before they are joined.
unfoldable pub can_assume : AwsRole → AwsRole → Outcome Bool
unfolding has_policy_to_assume_target has_trust_relationship_allowing_source_assumption
can_assume a target =
    let has_policy = has_policy_to_assume_target a target in
    and_then (has_trust_relationship_allowing_source_assumption target a)
      λ trusts. ok (has_policy && trusts)

-- One round of the inner loop: the link to add, if there is one, and the identifiers drawn.
pub link_to : (ℕ → String) → ℕ → AwsRole → AwsRole → Outcome (Option AssumeRoleLink)
unfolding can_assume
link_to uuid n source target =
    if source.arn == target.arn
    then ok none
    else and_then (can_assume source target) λ allowed.
      if allowed
      then ok (some (record { id = uuid n; source_arn = source.arn; target_arn = target.arn }))
      else ok none

abbrev pub add_link : Option AssumeRoleLink → List AssumeRoleLink × ℕ → List AssumeRoleLink × ℕ
add_link none (ls, n) = (ls, n)
add_link (some l) (ls, n) = (ls ++ l ∷ [], suc n)

pub links_from :
    (ℕ → String)
    → AwsRole
    → List AwsRole
    → List AssumeRoleLink × ℕ
    → Outcome (List AssumeRoleLink × ℕ)
unfolding link_to
links_from uuid source [] acc = ok acc
links_from uuid source (target ∷ targets) acc =
    and_then (link_to uuid acc.1 source target) λ l. links_from uuid source targets (add_link l acc)

pub links_of :
    (ℕ → String)
    → List AwsRole
    → List AwsRole
    → List AssumeRoleLink × ℕ
    → Outcome (List AssumeRoleLink × ℕ)
unfolding links_from
links_of uuid [] roles acc = ok acc
links_of uuid (source ∷ sources) roles acc =
    and_then (links_from uuid source roles acc) λ acc'. links_of uuid sources roles acc'

pub record Auditor : Type 0 where
  pub audit_roles : List String
  pub policy_map : List (String × AwsIamPolicy)
  pub iam_roles : List AwsRole
  pub links : List AssumeRoleLink
  pub cdk_resources : List CdkResource

-- The links are replaced when all of them are known.
unfoldable pub build_links : (ℕ → String) → ℕ → Auditor → Outcome (Auditor × ℕ)
unfolding links_of
build_links uuid n a =
    and_then (links_of uuid a.iam_roles a.iam_roles ([], n)) λ r. ok (record a { links = r.0 }, r.1)

unfoldable pub add_role : AwsRole → Auditor → Auditor
add_role r a = record a { iam_roles = a.iam_roles ++ r ∷ [] }
