-- ===== src/Recommendations/Tests.antt =====
-- Advice, selection and documents on the sample event, action and finding.
use iamzero.Prelude.{ℕ, ◌≡◌, refl, List, [], ◌∷◌, length}
use iamzero.Prelude.Outcome.{ok, panic, nil_pointer}
use iamzero.Arn.{get_role_or_user_name_from_arn}
use iamzero.Recommendations.{AwsEvent, AwsAction, Finding, LeastPrivilegePolicy}
use iamzero.Recommendations.Advice.{advise}
use iamzero.Recommendations.Advice.Scope.{scoped}
use iamzero.Recommendations.Advice.Grants.{AllFollow, templates_of, advise-AllFollow}
use iamzero.Recommendations.Actions.{get_selected_advisory}
use iamzero.Recommendations.Findings.{recalculate_document}
use iamzero.Recommendations.Findings.Granted.{
  granted, recalculate_document-granted, recalculate_document-panics,
}
use iamzero.Samples.{event, parameters, nth_id, advice, action, finding}

abbrev role_event : AwsEvent
role_event = record event {
  identity = record {
    user = "user";
    role = "arn:aws:iam::123456789012:role/test-role";
    account = "123456789012";
  };
}

advise_example :
    (out : List LeastPrivilegePolicy × AwsEvent) × (n' : ℕ) × (advise nth_id role_event 0
      ≡ (ok out, n'))
    × AllFollow (scoped role_event parameters) "test-role" (templates_of role_event) out.0
advise_example =
    advise-AllFollow nth_id role_event parameters "test-role" 0 refl
      (unfold get_role_or_user_name_from_arn in refl)

abbrev unselected : AwsAction
unselected = record action { selected_least_privilege_policy_id = "other" }

recalculate_document_example :
    (g : Finding) × (recalculate_document 5 (action ∷ []) finding ≡ ok g)
    × (g.document.statement ≡ granted (action ∷ []))
    × (g.event_count ≡ length (action ∷ []))
    × (g.updated_at ≡ 5)
    × (g.id ≡ finding.id)
    × (g.status ≡ finding.status)
    × (g.identity ≡ finding.identity)
unfolding get_selected_advisory
recalculate_document_example =
    recalculate_document-granted 5 (action ∷ []) finding ((λ h. (advice, refl)), tt)

recalculate_document_panic :
    recalculate_document 5 (action ∷ unselected ∷ []) finding ≡ panic nil_pointer
unfolding get_selected_advisory
recalculate_document_panic =
    recalculate_document-panics 5 (action ∷ []) unselected [] finding ((λ h. (advice, refl)), tt)
      refl refl
