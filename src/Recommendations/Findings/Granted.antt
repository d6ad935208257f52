-- ===== src/Recommendations/Findings/Granted.antt =====
-- What a finding's document grants, said without the loop that builds it, and when that loop
-- cannot panic.
use mathlib.Core.List.{append-nil}
use iamzero.Prelude.{
  ◌≡◌, refl, true, Option, none, some, List, [], ◌∷◌, ◌++◌, if◌then◌else◌, All, Bool-cases, inl,
  inr, length,
}
use iamzero.Prelude.Outcome.{ok, panic, nil_pointer}
use iamzero.Policies.{AwsIamStatement}
use iamzero.Recommendations.{AwsAction, LeastPrivilegePolicy, Finding, Time}
use iamzero.Recommendations.Actions.{get_selected_advisory, is_active}
use iamzero.Recommendations.Findings.{
  action_statements, advisory_statements, all_statements, recalculate_document,
}

-- An action that a document takes into account has a selected advisory.
abbrev pub IsSelected : AwsAction → Type 0
IsSelected a = is_active a ≡ true → (r : LeastPrivilegePolicy) × (get_selected_advisory a ≡ some r)

-- The statements of the selected advisories, of the actions that are enabled and have one.
abbrev pub advisory_grants : Option LeastPrivilegePolicy → List AwsIamStatement
advisory_grants none = []
advisory_grants (some r) = r.aws_policy.statement

abbrev pub granted : List AwsAction → List AwsIamStatement
granted [] = []
granted (a ∷ as') =
    (if is_active a then advisory_grants (get_selected_advisory a) else []) ++ granted as'

advisory_statements-some :
    (r : LeastPrivilegePolicy) → advisory_statements (some r) ≡ ok r.aws_policy.statement
unfolding advisory_statements
advisory_statements-some r = rw append-nil refl

action_statements-granted :
    (a : AwsAction)
    → IsSelected a
    → action_statements a
      ≡ ok (if is_active a then advisory_grants (get_selected_advisory a) else [])
unfolding action_statements
action_statements-granted a h = elim (Bool-cases (is_active a)) [
  | inl e ↦ let (r, q) = h e in rw (e, q) (advisory_statements-some r)
  | inr e ↦ rw e refl
]

pub all_statements-granted :
    (actions : List AwsAction)
    → All IsSelected actions
    → all_statements actions ≡ ok (granted actions)
unfolding all_statements
all_statements-granted [] h = refl
all_statements-granted (a ∷ as') h =
    rw (action_statements-granted a h.0, all_statements-granted as' h.1) refl

-- Where each action that counts has a selected advisory, RecalculateDocument does not panic: the
-- document then holds exactly the statements of the selected advisories of the actions that are
-- enabled and have advisories, in order, and the event count is the number of actions.
pub recalculate_document-granted :
    (now : Time) (actions : List AwsAction) (f : Finding)
    → All IsSelected actions
    → (g : Finding) × (recalculate_document now actions f ≡ ok g)
      × (g.document.statement ≡ granted actions)
      × (g.event_count ≡ length actions)
      × (g.updated_at ≡ now)
      × (g.id ≡ f.id)
      × (g.status ≡ f.status)
      × (g.identity ≡ f.identity)
unfolding recalculate_document
recalculate_document-granted now actions f h = (
  record f {
    updated_at = now;
    event_count = length actions;
    document = record document { statement = granted actions };
  },
  rw (all_statements-granted actions h) refl,
  refl,
  refl,
  refl,
  refl,
  refl,
  refl,
)
  where
    open f use {document}

action_statements-none :
    (a : AwsAction)
    → is_active a ≡ true
    → get_selected_advisory a ≡ none
    → action_statements a ≡ panic nil_pointer
unfolding action_statements
action_statements-none a e q = rw (e, q) refl

all_statements-panics :
    (before : List AwsAction) (a : AwsAction) (later : List AwsAction)
    → All IsSelected before
    → action_statements a ≡ panic nil_pointer
    → all_statements (before ++ a ∷ later) ≡ panic nil_pointer
unfolding all_statements
all_statements-panics [] a later h e = rw e refl
all_statements-panics (b ∷ bs) a later h e =
    rw (action_statements-granted b h.0, all_statements-panics bs a later h.1 e) refl

-- It panics as soon as one enabled action with advisories has none selected.
pub recalculate_document-panics :
    (now : Time) (before : List AwsAction) (a : AwsAction) (later : List AwsAction) (f : Finding)
    → All IsSelected before
    → is_active a ≡ true
    → get_selected_advisory a ≡ none
    → recalculate_document now (before ++ a ∷ later) f ≡ panic nil_pointer
unfolding recalculate_document
recalculate_document-panics now before a later f h e q =
    rw (all_statements-panics before a later h (action_statements-none a e q)) refl
