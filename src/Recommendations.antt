-- ===== src/Recommendations.antt =====
-- pkg/recommendations/types.go, action.go, finding.go and json_recommendations.go: the data.
pub mod Template
pub mod Table
pub mod Advice
pub mod Actions
pub mod Findings
mod Tests
use iamzero.Prelude.{ℕ, String, Bool, Option, List}
use iamzero.Policies.{AwsIamPolicy, CdkResource}

-- A value of a `map[string]interface{}`: a text, nil, or another value by the text that package
-- fmt prints for it.
pub data Value : Type 0 where
  str : String → Value
  null : Value
  other : String → Value

-- A map as an association list; a key stands in it once, and `none` is the nil map.
abbrev pub Vars : Type 0
Vars = List (String × Value)

pub record AwsData : Type 0 where
  pub type_name : String
  pub service : String
  pub region : String
  pub operation : String
  pub parameters : Option Vars
  pub exception_message : String
  pub exception_code : String

pub record AwsIdentity : Type 0 where
  pub user : String
  pub role : String
  pub account : String

pub record AwsEvent : Type 0 where
  pub id : String
  pub time : String
  pub payload : AwsData
  pub identity : AwsIdentity

pub record CloudResourceInstance : Type 0 where
  pub id : String
  pub name : String
  pub arn : String

pub record LeastPrivilegePolicy : Type 0 where
  pub id : String
  pub aws_policy : AwsIamPolicy
  pub comment : String
  pub role_name : String
  pub resources : List CloudResourceInstance

-- Times are nanoseconds; 0 is the zero time.
abbrev pub Time : Type 0
Time = ℕ

pub record AwsAction : Type 0 where
  pub id : String
  pub finding_id : String
  pub event : AwsEvent
  pub status : String
  pub time : Time
  pub recommendations : List LeastPrivilegePolicy
  pub has_recommendations : Bool
  pub enabled : Bool
  pub selected_least_privilege_policy_id : String

pub record ProcessedAwsIdentity : Type 0 where
  pub user : String
  pub role : String
  pub account : String
  pub cdk_resource : Option CdkResource

pub record Finding : Type 0 where
  pub id : String
  pub identity : ProcessedAwsIdentity
  pub updated_at : Time
  pub event_count : ℕ
  pub document : AwsIamPolicy
  pub status : String

-- `Description.Policy` is an `interface{}`.
pub data AnyPolicy : Type 0 where
  aws_iam_policy : AwsIamPolicy → AnyPolicy
  other_policy : AnyPolicy

pub record Description : Type 0 where
  pub applied_to : String
  pub type_name : String
  pub policy : AnyPolicy

pub record RecommendationDetails : Type 0 where
  pub id : String
  pub comment : String
  pub resources : List CloudResourceInstance
  pub description : List Description

pub record Statement : Type 0 where
  pub action : List String
  pub resource : List String

pub record AdvisoryTemplate : Type 0 where
  pub policy : List Statement
  pub comment : String
  pub doc_link : String
