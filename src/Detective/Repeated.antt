-- ===== src/Detective/Repeated.antt =====
-- Two events of one role.
use iamzero.Prelude.{ℕ, String, ◌≡◌, sym, ap, ◌∙◌, List, [], ◌∷◌, ◌++◌, All}
use mathlib.Core.List.{append_assoc}
use iamzero.Prelude.Outcome.{ok}
use iamzero.Policies.{CdkResource}
use iamzero.Recommendations.{AwsEvent, AwsAction, LeastPrivilegePolicy}
use iamzero.Recommendations.Advice.{advise}
use iamzero.Recommendations.Findings.Granted.{IsSelected}
use iamzero.Storage.Memory.{Memory, in_memory, find_by_role}
use iamzero.Audit.Resources.{get_physical_id_from_arn_resource}
use iamzero.Runtime.{Env, World, ParsedArn}
use iamzero.Detective.{with_real_role, analyse_event}
use iamzero.Detective.Recorded.{active_query, analyse_event-Analysed}

-- The role of the event parses, and its advice is found.
abbrev pub IsAnalysable : Env → AwsEvent → Type 0
IsAnalysable env event =
    (arn : ParsedArn) × (physical_id : String) × (env.parse_arn (with_real_role event).identity.role
      ≡ ok arn)
    × (get_physical_id_from_arn_resource arn.resource ≡ ok physical_id)
    × ((n : ℕ)
        → (advised : List LeastPrivilegePolicy × AwsEvent) × (n' : ℕ) × (advise env.uuid
              (with_real_role event) n
            ≡ (ok advised, n')))

-- From a storage where each action that counts has a selected advisory, two events of one role
-- whose role parses and whose advice is found are both analysed, one after the other: they add two
-- actions at the end, and the two name one finding, also where the role had none before.
pub analyse_event-twice :
    (env : Env) (cdk : List CdkResource) (w : World Memory) (first second : AwsEvent)
    → IsAnalysable env first
    → IsAnalysable env second
    → (with_real_role first).identity.role ≡ (with_real_role second).identity.role
    → All IsSelected w.store.actions
    → (a b : AwsAction) × (v u : World Memory) × (analyse_event env in_memory cdk first w
        ≡ (ok a, v))
      × (analyse_event env in_memory cdk second v ≡ (ok b, u))
      × (u.store.actions ≡ w.store.actions ++ a ∷ b ∷ [])
      × (b.finding_id ≡ a.finding_id)
analyse_event-twice env cdk w first second (arn, id, p, i, f) (arn', id', p', i', f') same all =
    let (a, v, r, done) = analyse_event-Analysed env cdk w first arn id p i f all in
    let (b, u, r', done') =
      analyse_event-Analysed env cdk v second arn' id' p' i' f' done.selected in
    let found =
      ap (λ role. find_by_role (active_query role) v.store.findings) (sym same) ∙ done.found in
    (
      a,
      b,
      v,
      u,
      r,
      r',
      done'.added
          ∙ ap (λ k. k ++ b ∷ []) done.added
          ∙ append_assoc w.store.actions (a ∷ []) (b ∷ []),
      done'.keeps done.finding found ∙ done.names,
    )
