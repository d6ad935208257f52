-- ===== src/Applier/Cdk.antt =====
-- pkg/applier/cdk/cdk.go.  The state S holds what the commands change; `stat` is the error of
-- os.Stat, none where it finds the path, `synth` runs `cdk synth` in a directory, `run_applier` the
-- applier's binary on a finding and a manifest, whose output `unmarshal` reads, and `write_file`
-- writes a file.
use iamzero.Prelude.{
  String, Bool, true, false, Option, none, some, List, [], ◌∷◌, ◌==◌, if◌then◌else◌,
}
use iamzero.Prelude.Outcome.{Outcome, ok, Exec, ◌>>=◌, ◌>>◌, pure, lift}
use iamzero.Recommendations.{AwsAction, Finding}
use iamzero.Applier.{PendingChanges, PolicyApplier, write_changes}

pub record CdkRole : Type 0 where
  pub type_name : String
  pub cdk_path : String

pub record CdkResource : Type 0 where
  pub reference : String
  pub type_name : String
  pub cdk_path : Option String
  pub arn : Option String

pub record CdkStatement : Type 0 where
  pub resources : List CdkResource
  pub actions : List String

pub record CdkRecommendation : Type 0 where
  pub type_name : String
  pub statements : List CdkStatement

pub record CdkFinding : Type 0 where
  pub finding_id : String
  pub role : CdkRole
  pub recommendations : List CdkRecommendation

pub record CdkIamPolicyApplier : Type 0 where
  pub project_path : String
  pub finding : Option CdkFinding
  pub skip_synth : Bool
  pub applier_binary_path : String
  pub manifest : String

pub data StatError : Type 0 where
  exist : StatError
  not_exist : StatError
  other_error : StatError

-- os.IsExist, of an error that says that the path exists already.
is_exist : Option StatError → Bool
is_exist (some exist) = true
is_exist _ = false

-- The applier, and the state of what stands outside it.
pub record CdkState (S : Type 0) : Type 0 where
  pub applier : CdkIamPolicyApplier
  pub outside : S

module _ {S : Type 0} (join_path : List String → String) (stat : String → Option StatError)
    (synth : String → Exec S (Unit {0})) (run_applier : String → String → String → Exec S String)
    (marshal : CdkFinding → Outcome String) (unmarshal : String → Outcome PendingChanges)
    (write_file : String → String → Exec S (Unit {0})) where
  on_outside : {A : Type 0} → Exec S A → Exec (CdkState S) A
  on_outside m s = let (r, o) = m s.outside in (r, record s { outside = o })

  unfoldable pub detect : CdkIamPolicyApplier → Bool
  unfolding is_exist
  detect t = is_exist (stat (join_path (t.project_path ∷ "cdk.json" ∷ [])))

  set_manifest : Exec (CdkState S) (Unit {0})
  set_manifest s = (
    ok tt,
    record s {
      applier = record applier {
        manifest = join_path (applier.project_path ∷ "cdk.out" ∷ "manifest.json" ∷ []);
      };
    },
  )
    where
      open s use {applier}

  synthesize : CdkIamPolicyApplier → Exec (CdkState S) (Unit {0})
  unfolding on_outside
  synthesize t = if t.skip_synth then pure tt else on_outside (synth t.project_path)

  unfoldable pub init : Exec (CdkState S) (Unit {0})
  unfolding synthesize set_manifest
  init s = (synthesize s.applier >> set_manifest) s

  -- The body of calculateCDKFinding is a comment.
  unfoldable pub calculate_cdk_finding : Finding → List AwsAction → Exec (CdkState S) (Unit {0})
  calculate_cdk_finding policy actions = pure tt

  plan_of : CdkIamPolicyApplier → Option CdkFinding → Exec (CdkState S) PendingChanges
  unfolding on_outside
  plan_of t none = pure []
  plan_of t (some finding) =
      if finding.role.cdk_path == ""
      then pure []
      else lift (marshal finding) >>= λ text.
          on_outside (run_applier t.applier_binary_path text t.manifest) >>= λ out.
          lift (unmarshal out)

  unfoldable pub plan : Exec (CdkState S) PendingChanges
  unfolding plan_of
  plan s = plan_of s.applier s.applier.finding s

  unfoldable pub apply : PendingChanges → Exec (CdkState S) (Unit {0})
  unfolding on_outside write_changes
  apply changes = on_outside (write_changes write_file changes)

  unfoldable pub cdk_applier : PolicyApplier (CdkState S)
  unfolding init detect calculate_cdk_finding plan apply
  cdk_applier = record {
    init = init;
    detect = λ s. (ok (detect s.applier), s);
    calculate_finding = calculate_cdk_finding;
    plan = plan;
    apply = apply;
    get_project_name = "CDK";
  }
