-- ===== src/Samples.antt =====
-- Sample data of the tests, after arn_test.go and json_recommendations_test.go.
use iamzero.Prelude.{ℕ, zero, suc, String, true, none, some, [], ◌∷◌}
use iamzero.Prelude.Outcome.{ok}
use iamzero.Policies.{AwsIamStatement}
use iamzero.Recommendations.{AwsEvent, AwsAction, Finding, LeastPrivilegePolicy, Vars, str}
use iamzero.Storage.Memory.{Memory}
use iamzero.Runtime.{Env, World}

abbrev pub role_of_sample : String
role_of_sample = "arn:aws:iam::123456789012:role/test-role"

abbrev pub session_of_sample : String
session_of_sample = "arn:aws:sts::123456789012:assumed-role/test-role/iamzero-test"

abbrev pub parameters : Vars
parameters = ("Bucket", str "test-bucket") ∷ []

abbrev pub event : AwsEvent
event = record {
  id = "event";
  time = "";
  payload = record {
    type_name = "awsAction";
    service = "s3";
    region = "us-east-1";
    operation = "PutObject";
    parameters = some parameters;
    exception_message = "";
    exception_code = "";
  };
  identity = record { user = "user"; role = session_of_sample; account = "123456789012" };
}

-- Identifiers; from the fourth on they are the same.
abbrev pub nth_id : ℕ → String
nth_id zero = "a"
nth_id (suc zero) = "b"
nth_id (suc (suc zero)) = "c"
nth_id _ = "d"

abbrev pub env : Env
env = record {
  uuid = nth_id;
  clock = λ n. n;
  parse_arn = λ s. ok (record { account_id = "123456789012"; resource = "role/test-role" });
}

abbrev pub statement : AwsIamStatement
statement = record {
  sid = "s";
  effect = "Allow";
  action = "s3:PutObject" ∷ [];
  principal = none;
  resource = "arn:aws:s3:::test-bucket" ∷ [];
}

abbrev pub advice : LeastPrivilegePolicy
advice = record {
  id = "advice";
  aws_policy = record { version = "2012-10-17"; id = none; statement = statement ∷ [] };
  comment = "";
  role_name = "test-role";
  resources = [];
}

abbrev pub action : AwsAction
action = record {
  id = "action";
  finding_id = "finding";
  event = event;
  status = "active";
  time = 0;
  recommendations = advice ∷ [];
  has_recommendations = true;
  enabled = true;
  selected_least_privilege_policy_id = "advice";
}

abbrev pub finding : Finding
finding = record {
  id = "finding";
  identity = record {
    user = "user";
    role = role_of_sample;
    account = "123456789012";
    cdk_resource = none;
  };
  updated_at = 0;
  event_count = 1;
  document = record { version = "2012-10-17"; id = none; statement = statement ∷ [] };
  status = "active";
}

abbrev pub memory : Memory
memory = record { findings = finding ∷ []; actions = action ∷ [] }

abbrev pub world : World Memory
world = record { store = memory; drawn = 0; read = 0 }
