-- ===== src/Detective/Calls.antt =====
-- The parts of an analysis over the in-memory storage.
use iamzero.Prelude.{
  ℕ, suc, String, ◌≡◌, refl, List, [], ◌∷◌, ◌++◌, ◌==◌, eq_refl, All, length, Bool-cases, inl, inr,
}
use iamzero.Prelude.Outcome.{Outcome, ok}
use iamzero.Policies.{CdkResource}
use iamzero.Recommendations.{AwsEvent, AwsAction, Finding, LeastPrivilegePolicy}
use iamzero.Recommendations.Actions.{get_selected_advisory}
use iamzero.Recommendations.Findings.Granted.{IsSelected, granted, recalculate_document-granted}
use iamzero.Storage.Memory.{Memory, in_memory, list_for_policy, for_policy, put_finding}
use iamzero.Runtime.{Env, World}
use iamzero.Detective.{new_action, record_action}

pub All-append {ℓ} :
    {A : Type 0} (P : A → Type ℓ) (xs : List A) (y : A) → All P xs → P y → All P (xs ++ y ∷ [])
All-append P [] y h k = (k, tt)
All-append P (x ∷ xs) y h k = (h.0, All-append P xs y h.1 k)

pub All-for_policy :
    (id : String) (P : AwsAction → Type 0) (actions : List AwsAction)
    → All P actions
    → All P (for_policy id actions)
unfolding for_policy
All-for_policy id P [] h = tt
All-for_policy id P (a ∷ as') h = elim (Bool-cases (a.finding_id == id)) [
  | inl e ↦ rw e (h.0, All-for_policy id P as' h.1)
  | inr e ↦ rw e (All-for_policy id P as' h.1)
]

-- The first advice is selected, so a new action has a selected advisory if it has any.
pub new_action-IsSelected :
    (id : String) (now : ℕ) (finding_id : String) (e : AwsEvent)
    (advice : List LeastPrivilegePolicy)
    → IsSelected (new_action id now finding_id e advice)
unfolding get_selected_advisory
new_action-IsSelected id now finding_id e [] h = cc
new_action-IsSelected id now finding_id e (r ∷ rs) h = (r, rw (eq_refl r.id) refl)

-- Where the stored actions have selected advisories, the end of an analysis returns the action,
-- adds it to the storage, and writes a finding rebuilt from all its actions.
abbrev pub Records :
    Env
    → World Memory
    → Finding
    → List LeastPrivilegePolicy × AwsEvent
    → Outcome AwsAction × World Memory
    → Type 0
Records env w f advised r =
    let a = new_action (env.uuid w.drawn) (env.clock w.read) f.id advised.1 advised.0 in
    let actions = w.store.actions ++ a ∷ [] in
    (g : Finding) × (r ≡ (
      ok a,
      record {
        store = record { findings = put_finding g w.store.findings; actions = actions };
        drawn = suc w.drawn;
        read = suc (suc w.read);
      },
    ))
    × (g.document.statement ≡ granted (for_policy f.id actions))
    × (g.event_count ≡ length (for_policy f.id actions))
    × (g.id ≡ f.id)
    × (g.status ≡ f.status)
    × (g.identity ≡ f.identity)

pub record_action-Records :
    (env : Env) (cdk : List CdkResource) (w : World Memory) (f : Finding)
    (advised : List LeastPrivilegePolicy × AwsEvent)
    → All IsSelected w.store.actions
    → Records env w f advised (record_action env in_memory cdk f advised w)
unfolding record_action list_for_policy
record_action-Records env cdk w f advised h =
    let a = new_action (env.uuid w.drawn) (env.clock w.read) f.id advised.1 advised.0 in
    let selected =
      new_action-IsSelected (env.uuid w.drawn) (env.clock w.read) f.id advised.1 advised.0 in
    let all = All-append IsSelected w.store.actions a h selected in
    let (g, e, s, n, _, i, st, id) =
      recalculate_document-granted (env.clock (suc w.read))
        (for_policy f.id (w.store.actions ++ a ∷ [])) f
        (All-for_policy f.id IsSelected (w.store.actions ++ a ∷ []) all) in
    (g, rw e refl, s, n, i, st, id)
