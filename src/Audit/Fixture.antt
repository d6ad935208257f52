-- ===== src/Audit/Fixture.antt =====
-- pkg/audit/fixture.go.
use iamzero.Prelude.{none, some, [], ◌∷◌}
use iamzero.Audit.{AwsRole, Auditor, add_role}

-- "a source role which assumes a target role"
abbrev fixture_source : AwsRole
fixture_source = record {
  arn = "arn:aws:iam::123456789012:role/source";
  account_id = "123456789012";
  managed_policies =
      (record {
        arn = "arn:aws:iam::111222333444:policy/target-policy";
        document = record {
          version = "2012-10-17";
          id = none;
          statement =
              (record {
                sid = "1";
                effect = "Allow";
                action = "sts:AssumeRole" ∷ [];
                principal = none;
                resource = "arn:aws:iam::111222333444:role/target" ∷ [];
              })
              ∷ [];
        };
      })
      ∷ [];
  inline_policies = [];
  trust_policy_document = record { version = ""; statement = [] };
}

abbrev fixture_target : AwsRole
fixture_target = record {
  arn = "arn:aws:iam::111222333444:role/target";
  account_id = "111222333444";
  managed_policies = [];
  inline_policies = [];
  trust_policy_document = record {
    version = "";
    statement =
        (record {
          sid = "";
          effect = "Allow";
          action = "sts:AssumeRole" ∷ [];
          principal = some (record { aws = "arn:aws:iam::123456789012:role/source" });
          resource = [];
        })
        ∷ [];
  };
}

abbrev fixture_unrelated : AwsRole
fixture_unrelated = record {
  arn = "arn:aws:iam::111222333444:role/unrelated";
  account_id = "111222333444";
  managed_policies = [];
  inline_policies = [];
  trust_policy_document = record { version = ""; statement = [] };
}

unfoldable pub load_fixture : Auditor → Auditor
unfolding add_role
load_fixture a = add_role fixture_unrelated (add_role fixture_target (add_role fixture_source a))
