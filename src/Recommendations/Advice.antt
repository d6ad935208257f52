-- ===== src/Recommendations/Advice.antt =====
-- CreateAdviceFromEvent of pkg/recommendations/json_recommendations.go, and Advise of
-- recommendations.go.  The state of a call is the number of identifiers drawn so far; the `n`-th
-- identifier of `uuid.NewString` is `uuid n`.
pub mod Scope
pub mod Grants
use Prim.Native.Char.{Char}
use iamzero.Prelude.{
  ℕ, suc, String, Option, none, some, List, [], ◌∷◌, ◌++◌, map, ◌==◌, if◌then◌else◌,
}
use iamzero.Prelude.Text.{◌<>◌, is_char}
use iamzero.Prelude.Outcome.{Outcome, ok, err, panic, Exec, nil_map, ◌>>=◌, ◌>>◌, pure, lift}
use iamzero.Policies.{AwsIamStatement}
use iamzero.Arn.{get_role_or_user_name_from_arn}
use iamzero.Recommendations.{
  Value, str, Vars, AwsEvent, CloudResourceInstance, LeastPrivilegePolicy, Statement,
  AdvisoryTemplate,
}
use iamzero.Recommendations.Table.{alerts_mapping}
use iamzero.Recommendations.Template.{parse, execute, insert, parse_resource_from_template}

-- strings.Replace(s, "-", "", -1)
pub without_dashes : String → String
without_dashes String.[] = ""
without_dashes (String.◌∷◌ c s) =
    let rest = without_dashes s in if is_char b'-' c then rest else String.◌∷◌ c rest

-- vars["Region"] = ..., vars["Account"] = ...: a write to a nil map panics.
unfoldable pub scope_vars : AwsEvent → Option Vars → Outcome Vars
scope_vars e none = panic nil_map
scope_vars e (some vars) =
    ok (insert "Account" (str e.identity.account) (insert "Region" (str e.payload.region) vars))

-- The event after the writes, which go to the map that its callers share.
abbrev pub with_parameters : AwsEvent → Vars → AwsEvent
with_parameters e vars = record e { payload = record payload { parameters = some vars } }
  where
    open e use {payload}

pub friendly : Outcome String → String
friendly (ok name) = name
friendly (err e) = "unknown"
friendly (panic p) = "unknown"

abbrev pub allow : String → List String → List String → AwsIamStatement
allow sid action resource = record {
  sid = sid;
  effect = "Allow";
  action = action;
  principal = none;
  resource = resource;
}

abbrev pub arns : List CloudResourceInstance → List String
arns = map λ r. r.arn

abbrev pub templates_for : String → List (String × List AdvisoryTemplate) → List AdvisoryTemplate
templates_for key [] = []
templates_for key ((k, ts) ∷ rest) = if k == key then ts else templates_for key rest

module _ (uuid : ℕ → String) where
  pub new_string : Exec ℕ String
  new_string n = (ok (uuid n), suc n)

  pub render_resource : Vars → String → Exec ℕ CloudResourceInstance
  unfolding new_string friendly parse execute parse_resource_from_template
  render_resource vars template = do
    tmpl ← lift (parse template)
    let name = friendly (parse_resource_from_template tmpl vars)
    arn ← lift (execute vars tmpl)
    id ← new_string
    pure (record { id = id; name = name; arn = arn })

  pub render_resources : Vars → List String → Exec ℕ (List CloudResourceInstance)
  unfolding render_resource
  render_resources vars [] = pure []
  render_resources vars (t ∷ ts) = do
    r ← render_resource vars t
    rs ← render_resources vars ts
    pure (r ∷ rs)

  pub render_statement : Vars → Statement → Exec ℕ (AwsIamStatement × List CloudResourceInstance)
  unfolding render_resources new_string without_dashes
  render_statement vars s = do
    rs ← render_resources vars s.resource
    id ← new_string
    pure (allow ("iamzero" <> without_dashes id) s.action (arns rs), rs)

  pub render_statements :
      Vars → List Statement → Exec ℕ (List AwsIamStatement × List CloudResourceInstance)
  unfolding render_statement
  render_statements vars [] = pure ([], [])
  render_statements vars (s ∷ ss) = do
    r ← render_statement vars s
    rest ← render_statements vars ss
    pure (r.0 ∷ rest.0, r.1 ++ rest.1)

  pub advice_of :
      String
      → AdvisoryTemplate
      → List AwsIamStatement × List CloudResourceInstance
      → String
      → LeastPrivilegePolicy
  advice_of id r rendered role = record {
    id = id;
    aws_policy = record { version = "2012-10-17"; id = some id; statement = rendered.0 };
    comment = r.comment;
    role_name = role;
    resources = rendered.1;
  }

  unfoldable pub create_advice_from_event :
      AwsEvent → AdvisoryTemplate → Exec ℕ (LeastPrivilegePolicy × AwsEvent)
  unfolding scope_vars render_statements new_string advice_of get_role_or_user_name_from_arn
  create_advice_from_event e r = do
    vars ← lift (scope_vars e e.payload.parameters)
    rendered ← render_statements vars r.policy
    id ← new_string
    role ← lift (get_role_or_user_name_from_arn e.identity.role)
    pure (advice_of id r rendered role, with_parameters e vars)

  pub create_advices :
      AwsEvent → List AdvisoryTemplate → Exec ℕ (List LeastPrivilegePolicy × AwsEvent)
  unfolding create_advice_from_event
  create_advices e [] = pure ([], e)
  create_advices e (t ∷ ts) = do
    a ← create_advice_from_event e t
    rest ← create_advices a.1 ts
    pure (a.0 ∷ rest.0, rest.1)

  unfoldable pub advise : AwsEvent → Exec ℕ (List LeastPrivilegePolicy × AwsEvent)
  unfolding create_advices alerts_mapping
  advise e =
      create_advices e
        (templates_for (e.payload.service <> ":" <> e.payload.operation) alerts_mapping)
