-- ===== src/Policies/Tests.antt =====
-- A statement that comes alone.
use iamzero.Prelude.{String, ◌≡◌, refl, [], ◌∷◌}
use iamzero.Prelude.Outcome.{ok, err, plain}
use iamzero.Policies.{AwsIamStatement}
use iamzero.Policies.Statements.{unsupported, scan, unmarshal_statements}

one_statement :
    (s : AwsIamStatement) → unmarshal_statements (λ t. ok s) (λ t. ok []) "{}" ≡ ok (s ∷ [])
unfolding unmarshal_statements
one_statement s = refl

no_bytes : scan {A = String} ok (unsupported "int64") ≡ err (plain "Unsupported type: int64")
unfolding scan
no_bytes = refl
