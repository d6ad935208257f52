-- ===== src/Policies/Statements.antt =====
-- pkg/policies/policy.go: statements that come alone or in an array, by their first byte, and
-- values of a database.  Decoding the bytes is package encoding/json.
use Prim.Native.Char.{Char}
use iamzero.Prelude.{String, List, [], ◌∷◌, if◌then◌else◌}
use iamzero.Prelude.Text.{◌<>◌, is_char}
use iamzero.Prelude.Outcome.{Outcome, ok, err, plain, and_then}
use iamzero.Policies.{AwsIamStatement}

-- What a driver hands over: bytes, a text, or a value of another type, of that name.
pub data DriverValue : Type 0 where
  bytes text_value unsupported : String → DriverValue

unfoldable pub scan : {A : Type 0} → (String → Outcome A) → DriverValue → Outcome A
scan unmarshal (bytes v) = unmarshal v
scan unmarshal (text_value v) = unmarshal v
scan unmarshal (unsupported name) = err (plain ("Unsupported type: " <> name))

module _ (unmarshal_statement : String → Outcome AwsIamStatement)
    (unmarshal_statement_array : String → Outcome (List AwsIamStatement)) where
  unmarshal_single : String → Outcome (List AwsIamStatement)
  unmarshal_single text = and_then (unmarshal_statement text) λ res. ok (res ∷ [])

  unmarshal_many : String → Outcome (List AwsIamStatement)
  unmarshal_many text = unmarshal_statement_array text

  -- The switch on the first byte.
  unmarshal_by : Char → String → Outcome (List AwsIamStatement)
  unfolding unmarshal_single unmarshal_many
  unmarshal_by c text =
      if is_char b'{' c
      then unmarshal_single text
      else if is_char b'[' c
      then unmarshal_many text
      else err (plain "unmarshalling: AWS IAM statement neither struct nor array")

  unfoldable pub unmarshal_statements : String → Outcome (List AwsIamStatement)
  unfolding unmarshal_by
  unmarshal_statements String.[] = err (plain "no bytes to unmarshal")
  unmarshal_statements (String.◌∷◌ c rest) = unmarshal_by c (String.◌∷◌ c rest)
