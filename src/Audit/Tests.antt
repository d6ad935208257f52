-- ===== src/Audit/Tests.antt =====
-- Two roles of which the first may assume the second, and paths of ARNs and of CDK.
use iamzero.Prelude.{
  ℕ, ◌+◌, ◌≡◌, refl, Bool, true, none, some, List, [], ◌∷◌, map, All, ◌↔◌, length,
}
use iamzero.Prelude.Outcome.{ok}
use iamzero.Policies.{AwsIamStatement}
use iamzero.Audit.{AwsRole, AssumeRoleLink, Auditor, can_assume, build_links}
use iamzero.Audit.Fixture.{load_fixture}
use iamzero.Audit.Assume.{
  NamesPrincipal, Some, ListsTarget, ListsSource, policy_statements, can_assume_lem,
}
use iamzero.Audit.Links.{Answers, pairs_of, build_links-pairs_of}

abbrev allow : AwsIamStatement
allow = record {
  sid = "";
  effect = "Allow";
  action = "sts:AssumeRole" ∷ [];
  principal = none;
  resource = "target" ∷ [];
}

abbrev trust : AwsIamStatement
trust = record {
  sid = "";
  effect = "Allow";
  action = "sts:AssumeRole" ∷ [];
  principal = some (record { aws = "source" });
  resource = [];
}

abbrev source : AwsRole
source = record {
  arn = "source";
  account_id = "123456789012";
  managed_policies = [];
  inline_policies =
      (record { name = "p"; document = record { version = ""; id = none; statement = allow ∷ [] } })
      ∷ [];
  trust_policy_document = record { version = ""; statement = [] };
}

abbrev target : AwsRole
target = record {
  arn = "target";
  account_id = "123456789012";
  managed_policies = [];
  inline_policies = [];
  trust_policy_document = record { version = ""; statement = trust ∷ [] };
}

trust-NamesPrincipal : NamesPrincipal trust
trust-NamesPrincipal h e = cc

can_assume_example :
    (b : Bool) × (can_assume source target ≡ ok b)
    × (b ≡ true ↔ (
        Some (ListsTarget target) (policy_statements source)
        × Some (ListsSource source) target.trust_policy_document.statement))
can_assume_example = can_assume_lem source target (trust-NamesPrincipal, tt)

-- The same source with a Deny in place of the Allow: CanAssume still says yes.
abbrev denied : AwsRole
denied = record source {
  inline_policies =
      (record {
        name = "p";
        document = record {
          version = "";
          id = none;
          statement = record allow { effect = "Deny" } ∷ [];
        };
      })
      ∷ [];
}

deny_counts : can_assume denied target ≡ ok true
unfolding can_assume
deny_counts = refl

answers : (a : AwsRole) → All (Answers a) (source ∷ target ∷ [])
answers a =
    let (b, e, _) = can_assume_lem a source tt in
    let (c, f, _) = can_assume_lem a target (trust-NamesPrincipal, tt) in ((b, e), ((c, f), tt))

abbrev auditor : Auditor
auditor = record {
  audit_roles = [];
  policy_map = [];
  iam_roles = source ∷ target ∷ [];
  links = [];
  cdk_resources = [];
}

build_links_example :
    (ls : List AssumeRoleLink) × (m : ℕ) × (build_links (λ n. "id") 0 auditor
      ≡ ok (record auditor { links = ls }, m))
    × (map (λ l. (l.source_arn, l.target_arn)) ls ≡ pairs_of auditor.iam_roles auditor.iam_roles)
    × (m ≡ 0 + length ls)
build_links_example =
    build_links-pairs_of (λ n. "id") 0 auditor (answers source, (answers target, tt))

one_link : pairs_of auditor.iam_roles auditor.iam_roles ≡ ("source", "target") ∷ []
unfolding can_assume
one_link = refl

-- After LoadFixture, the source role alone is linked, to the target role.
fixture_links :
    build_links (λ n. "id") 0 (load_fixture (record auditor { iam_roles = [] }))
    ≡ ok (
      record (load_fixture (record auditor { iam_roles = [] })) {
        links =
            (record {
              id = "id";
              source_arn = "arn:aws:iam::123456789012:role/source";
              target_arn = "arn:aws:iam::111222333444:role/target";
            })
            ∷ [];
      },
      1,
    )
unfolding build_links load_fixture
fixture_links = refl
