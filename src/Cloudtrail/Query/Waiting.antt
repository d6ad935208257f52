-- ===== src/Cloudtrail/Query/Waiting.antt =====
-- When GetActionsForRole returns.
use iamzero.Prelude.{◌≡◌, refl, sym, subst, Option, none, some, List, [], ◌∷◌, String, ℕ, All, ◌↔◌}
use iamzero.Prelude.Outcome.{Outcome, ok, err, panic, and_then}
use iamzero.Policies.{CdkResource}
use iamzero.Recommendations.{AwsEvent}
use iamzero.Storage.{Storage}
use iamzero.Runtime.{Env, World}
use iamzero.Cloudtrail.Query.{
  QueryState, running, queued, succeeded, other, QueryStatus, Athena, CloudTrailAuditor,
  wait_for_query, loop_round, after_query, after_start, get_actions_for_role, query_for,
}

-- An answer after which the loop goes on: the query is queued or running.
abbrev pub Goes : QueryState → Type 0
Goes running = Unit
Goes queued = Unit
Goes succeeded = ⊥
Goes other = ⊥

abbrev pub IsGoing : Outcome QueryStatus → Type 0
IsGoing (ok q) = Goes q.state
IsGoing (err e) = ⊥
IsGoing (panic p) = ⊥

loop_round-none :
    (state : QueryState) (reason : Option String) (later : Option (Outcome (Unit {0})))
    → loop_round state reason later ≡ none ↔ Goes state × (later ≡ none)
unfolding loop_round
loop_round-none running reason later = (λ e. (tt, e), λ h. h.1)
loop_round-none queued reason later = (λ e. (tt, e), λ h. h.1)
loop_round-none succeeded reason later = (λ e. cc, λ h. absurd h.0)
loop_round-none other reason later = (λ e. cc, λ h. absurd h.0)

wait_for_query-none :
    (replies : List (Outcome QueryStatus)) → wait_for_query replies ≡ none ↔ All IsGoing replies
unfolding wait_for_query
wait_for_query-none [] = (λ e. tt, λ h. refl)
wait_for_query-none (ok q ∷ later) =
    let (to, from) = loop_round-none q.state q.state_change_reason (wait_for_query later) in
    let (to_all, from_all) = wait_for_query-none later in
    (λ e. let (g, n) = to e in (g, to_all n), λ h. from (h.0, from_all h.1))
wait_for_query-none (err e ∷ later) = (λ q. cc, λ h. absurd h.0)
wait_for_query-none (panic p ∷ later) = (λ q. cc, λ h. absurd h.0)

abbrev OnOk : (String → Type 0) → Outcome String → Type 0
OnOk P (ok id) = P id
OnOk P _ = Unit

module _ (unmarshal : String → Outcome (List (String × String))) (hash : AwsEvent → Outcome ℕ)
    (uuid : ℕ → String) {S : Type 0} (env : Env) (storage : Storage S) (cdk : List CdkResource)
    (order : List AwsEvent → List AwsEvent) (athena : Athena) (a : CloudTrailAuditor)
    (account role : String) (w : World S) where
  -- StartQueryExecution, once the configuration is loaded.
  abbrev pub started : Outcome String
  started = and_then athena.load_default_config λ u.
      athena.start_query_execution (query_for a.athena_cloud_trail_bucket account role)
        a.athena_output_location

  after_query-none :
      (r : Option (Outcome (Unit {0}))) (res : Outcome (List (List (Option String))))
      → after_query unmarshal hash uuid env storage cdk order r res w ≡ none ↔ r ≡ none
  unfolding after_query
  after_query-none none res = (λ e. refl, λ e. refl)
  after_query-none (some r) res = (λ e. cc, λ e. cc)

  after_start-none :
      (o : Outcome String)
      → after_start unmarshal hash uuid env storage cdk order athena o w ≡ none
        ↔ (id : String) × (o ≡ ok id) × All IsGoing (athena.get_query_executions id)
  unfolding after_start
  after_start-none (ok id) =
      let (to, from) =
        after_query-none (wait_for_query (athena.get_query_executions id))
          (athena.get_query_results id) in
      let (to_all, from_all) = wait_for_query-none (athena.get_query_executions id) in
      (
        λ q. (id, refl, to_all (to q)),
        λ (i, q, h).
            from (
              from_all (subst (OnOk (λ j. All IsGoing (athena.get_query_executions j))) (sym q) h)),
      )
  after_start-none (err e) = (λ q. cc, λ (i, q, h). cc)
  after_start-none (panic p) = (λ q. cc, λ (i, q, h). cc)

  -- After as many rounds of the loop as there are answers to GetQueryExecution, whatever these are:
  -- GetActionsForRole has not returned exactly where the configuration was loaded, the query was
  -- started, and each answer says that it is queued or running.  Any other answer, also an error, ends
  -- it, and so does a failure before the loop.
  pub get_actions_for_role-waits :
      get_actions_for_role unmarshal hash uuid env storage cdk order athena a account role w ≡ none
      ↔ (id : String) × (started ≡ ok id) × All IsGoing (athena.get_query_executions id)
  unfolding get_actions_for_role
  get_actions_for_role-waits = after_start-none started
