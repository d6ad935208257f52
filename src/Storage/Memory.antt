-- ===== src/Storage/Memory.antt =====
-- pkg/storage/finding_inmemory.go and action_inmemory.go.  Every writer holds the lock for its
-- whole body, so a call is one step.
pub mod Lookup
use iamzero.Prelude.{
  String, Bool, true, false, ◌&&◌, Option, none, some, List, [], ◌∷◌, ◌++◌, ◌==◌, if◌then◌else◌,
  select, find_first,
}
use iamzero.Prelude.Outcome.{Outcome, ok, err, plain, Exec, pure, after_call, ◌>>=◌}
use iamzero.Recommendations.{AwsAction, Finding}
use iamzero.Storage.{FindByRoleQuery, FindingStorage, ActionStorage, Storage}
use iamzero.Storage.Noop.{no_op_event_storage}

pub record Memory : Type 0 where
  pub findings : List Finding
  pub actions : List AwsAction

abbrev pub empty : Memory
empty = record { findings = []; actions = [] }

unfoldable pub get_finding : String → List Finding → Option Finding
get_finding id [] = none
get_finding id (f ∷ fs) = if f.id == id then some f else get_finding id fs

unfoldable pub for_status : String → List Finding → List Finding
for_status status [] = []
for_status status (f ∷ fs) =
    let rest = for_status status fs in if f.status == status then f ∷ rest else rest

unfoldable pub find_by_role : FindByRoleQuery → List Finding → Option Finding
find_by_role q [] = none
find_by_role q (f ∷ fs) =
    if f.identity.role == q.role && f.status == q.status then some f else find_by_role q fs

-- The first finding of that identifier is replaced; a new one goes to the end.
unfoldable pub put_finding : Finding → List Finding → List Finding
put_finding g [] = g ∷ []
put_finding g (f ∷ fs) = if f.id == g.id then g ∷ fs else f ∷ put_finding g fs

unfoldable pub get_action : String → List AwsAction → Option AwsAction
get_action id [] = none
get_action id (a ∷ as') = if a.id == id then some a else get_action id as'

unfoldable pub for_policy : String → List AwsAction → List AwsAction
for_policy finding_id [] = []
for_policy finding_id (a ∷ as') =
    let rest = for_policy finding_id as' in if a.finding_id == finding_id then a ∷ rest else rest

unfoldable pub enabled_only : List AwsAction → List AwsAction
enabled_only [] = []
enabled_only (a ∷ as') = let rest = enabled_only as' in if a.enabled then a ∷ rest else rest

-- The actions with the first one of that identifier changed; none where there is none.
unfoldable pub change_action :
    String → (AwsAction → AwsAction) → List AwsAction → Option (List AwsAction)
change_action id f [] = none
change_action id f (a ∷ as') =
    let rest = change_action id f as' in
    if a.id == id then some (f a ∷ as') else elim rest [ none ↦ none | some r ↦ some (a ∷ r) ]

-- The end of SetStatus and of Update.
unfoldable pub changed : Option (List AwsAction) → Exec Memory (Unit {0})
changed none m = (err (plain "could not find alert"), m)
changed (some as') m = (ok tt, record m { actions = as' })

unfoldable pub set_status : String → String → Exec Memory (Unit {0})
unfolding changed change_action
set_status id status m = changed (change_action id (λ a. record a { status = status }) m.actions) m

unfoldable pub update_action : AwsAction → Exec Memory (Unit {0})
unfolding changed change_action
update_action action m = changed (change_action action.id (λ a. action) m.actions) m

unfoldable pub list_for_policy : String → Exec Memory (List AwsAction)
unfolding for_policy
list_for_policy id m = (ok (for_policy id m.actions), m)

abbrev pub in_memory_finding_storage : FindingStorage Memory
in_memory_finding_storage = record {
  list = λ m. (ok m.findings, m);
  list_for_status = λ status m. (ok (for_status status m.findings), m);
  get = λ id m. (ok (get_finding id m.findings), m);
  find_by_role = λ q m. (ok (find_by_role q m.findings), m);
  create_or_update = λ f m. (ok tt, record m { findings = put_finding f m.findings });
}

abbrev pub in_memory_action_storage : ActionStorage Memory
in_memory_action_storage = record {
  add = λ a m. (ok tt, record m { actions = m.actions ++ a ∷ [] });
  list = λ m. (ok m.actions, m);
  get = λ id m. (ok (get_action id m.actions), m);
  list_for_policy = list_for_policy;
  list_enabled_actions_for_finding =
      λ id. list_for_policy id >>= λ actions. pure (enabled_only actions);
  set_status = set_status;
  update = update_action;
}

abbrev pub in_memory : Storage Memory
in_memory = record {
  event = no_op_event_storage;
  finding = in_memory_finding_storage;
  action = in_memory_action_storage;
}
