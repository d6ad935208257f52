-- ===== src/Policies.antt =====
-- pkg/policies: IAM policy documents and the resources of a CDK stack.
pub mod Decoding
pub mod Statements
mod Tests
use iamzero.Prelude.{String, List, Option}

pub record AwsIamPrincipal : Type 0 where
  pub aws : String

pub record AwsIamStatement : Type 0 where
  pub sid : String
  pub effect : String
  pub action : List String
  pub principal : Option AwsIamPrincipal
  pub resource : List String

pub record AwsIamPolicy : Type 0 where
  pub version : String
  pub id : Option String
  pub statement : List AwsIamStatement

pub record CdkResource : Type 0 where
  pub stack_id : String
  pub logical_id : String
  pub physical_id : String
  pub account_id : String
  pub cdk_path : String
  pub cdk_id : String
  pub type_name : String
