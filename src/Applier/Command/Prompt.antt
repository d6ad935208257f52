-- ===== src/Applier/Command/Prompt.antt =====
-- promptForConfirmation, and Exec up to where the findings are listed, of
-- cmd/cli/commands/apply.go.  The state is that of what the command calls.
use iamzero.Prelude.{
  String, ◌≡◌, refl, Bool, true, false, ◌||◌, Option, none, some, List, [], ◌∷◌, ◌==◌,
  if◌then◌else◌,
}
use iamzero.Prelude.Outcome.{Outcome, ok, err, panic, plain, Exec, ◌>>=◌, ◌>>◌, lift}
use iamzero.Recommendations.{AwsAction, Finding}
use iamzero.Applier.{PendingChanges, PolicyApplier}
use iamzero.Applier.Command.{apply_findings}

-- What fmt.Scanln gives, one line after the other; none where there is no line yet.  An error ends
-- the program.  `to_lower` is strings.ToLower.
prompt_for_confirmation : (String → String) → List (Outcome String) → Option (Outcome Bool)
prompt_for_confirmation to_lower [] = none
prompt_for_confirmation to_lower (ok response ∷ later) =
    let again = prompt_for_confirmation to_lower later in
    if to_lower response == "y" || to_lower response == "yes"
    then some (ok true)
    else if to_lower response == "n" || to_lower response == "no"
    then some (ok false)
    else again
prompt_for_confirmation to_lower (err e ∷ later) = some (err e)
prompt_for_confirmation to_lower (panic p ∷ later) = some (panic p)

asks_again :
    prompt_for_confirmation (λ s. s) (ok "maybe" ∷ ok "no" ∷ ok "yes" ∷ []) ≡ some (ok false)
unfolding prompt_for_confirmation
asks_again = refl

pub record ApplyCommand : Type 0 where
  pub applier_binary_path : String

-- `appliers` makes the appliers of a project.
module _ {S : Type 0} (build_logger : Outcome (Unit {0})) (open_db : Exec S (Unit {0}))
    (list_for_status : String → Exec S (List Finding)) (appliers : String → List (PolicyApplier S))
    (render_detected : String → Exec S (Unit {0}))
    (render_diff : PendingChanges → Exec S (Unit {0})) (confirmed : Exec S Bool)
    (actions_for : String → Exec S (List AwsAction)) where
  apply_to_project : ApplyCommand → String → Exec S (Unit {0})
  unfolding apply_findings
  apply_to_project c project_path =
      if c.applier_binary_path == ""
      then lift (
          err (
            plain
              "the IAMZERO_APPLIER_BINARY_PATH variable must be set with a path to the IAM Zero CDK applier"))
      else lift build_logger >> open_db >> list_for_status "active" >>= λ findings.
          apply_findings render_detected render_diff confirmed actions_for project_path findings
            (appliers project_path)

  unfoldable pub exec_apply : ApplyCommand → List String → Exec S (Unit {0})
  unfolding apply_to_project
  exec_apply c [] = lift (
      err (
        plain
          "You must provide a path to the project to apply findings to. For example, 'iamzero apply .'"))
  exec_apply c (project_path ∷ args) = apply_to_project c project_path
