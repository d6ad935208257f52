-- ===== src/Applier/Command.antt =====
-- cmd/cli/commands/apply.go: Exec, from the point where the findings are listed.  `render_detected`
-- and `render_diff` are what is printed, `confirmed` what the user answers, and `actions_for`
-- ListEnabledActionsForFinding; all of them may read and change the state.
pub mod Confirmed
pub mod Prompt
mod Tests
use iamzero.Prelude.{String, Bool, true, false, ◌||◌, List, [], ◌∷◌, ◌==◌, if◌then◌else◌}
use iamzero.Prelude.Text.{◌<>◌}
use iamzero.Prelude.Outcome.{Outcome, ok, err, plain, Exec, ◌>>=◌, ◌>>◌, pure, lift, wrapping}
use iamzero.Recommendations.{AwsAction, Finding}
use iamzero.Applier.{PendingChanges, PolicyApplier}

module _ {S : Type 0} (render_detected : String → Exec S (Unit {0}))
    (render_diff : PendingChanges → Exec S (Unit {0})) (confirmed : Exec S Bool)
    (actions_for : String → Exec S (List AwsAction)) where
  -- The changes are written if the user accepts them.
  write_accepted : PolicyApplier S → PendingChanges → Bool → Exec S (Unit {0})
  write_accepted applier plan true =
      wrapping "error writing files during applying" (applier.apply plan)
  write_accepted applier plan false = pure tt

  apply_one : PolicyApplier S → Finding → Exec S (Unit {0})
  unfolding write_accepted
  apply_one applier finding = actions_for finding.id >>= λ actions.
      applier.calculate_finding finding actions
      >> (applier.plan >>= λ plan.
          wrapping "error rendering diff" (render_diff plan)
          >> (confirmed >>= λ accepted. write_accepted applier plan accepted))

  apply_each : PolicyApplier S → List Finding → Exec S (Unit {0})
  unfolding apply_one
  apply_each applier [] = pure tt
  apply_each applier (finding ∷ findings) = apply_one applier finding >> apply_each applier findings

  run_detected : PolicyApplier S → List Finding → Bool → Exec S (Unit {0})
  unfolding apply_each
  run_detected applier findings false = pure tt
  run_detected applier findings true =
      wrapping "error rendering project detected message" (render_detected applier.get_project_name)
      >> wrapping "error initializing the applier" applier.init
      >> apply_each applier findings

  -- Whether some project was detected.
  run_appliers : List Finding → List (PolicyApplier S) → Bool → Exec S Bool
  unfolding run_detected
  run_appliers findings [] project_detected = pure project_detected
  run_appliers findings (applier ∷ appliers) project_detected = applier.detect >>= λ detected.
      run_detected applier findings detected
      >> run_appliers findings appliers (detected || project_detected)

  not_detected : String → Bool → Outcome (Unit {0})
  not_detected project_path true = ok tt
  not_detected project_path false = err (
      plain (
        "we couldn't find a CDK project or a Terraform Project at "
        <> (project_path
            <> ". Please ensure that you are providing a path to a CDK project (which should contain a 'cdk.json' file) or a Terraform project (which should contain a 'main.tf' file)")))

  unfoldable pub apply_findings : String → List Finding → List (PolicyApplier S) → Exec S (Unit {0})
  unfolding run_appliers not_detected
  apply_findings project_path findings appliers =
      run_appliers findings appliers false >>= λ detected. lift (not_detected project_path detected)
