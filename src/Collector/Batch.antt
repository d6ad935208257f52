-- ===== src/Collector/Batch.antt =====
-- A batch of events from the request to the answer, over the in-memory storage.
use mathlib.Core.List.{append-nil, append_assoc}
use iamzero.Prelude.{
  ℕ, String, ◌≡◌, refl, sym, length, suc, ap, ◌∙◌, Bool, some, List, [], ◌∷◌, ◌++◌, map, All,
}
use iamzero.Prelude.Outcome.{ok}
use iamzero.Policies.{CdkResource}
use iamzero.Recommendations.{AwsEvent, AwsAction, LeastPrivilegePolicy}
use iamzero.Recommendations.Advice.{advise}
use iamzero.Recommendations.Findings.Granted.{IsSelected}
use iamzero.Storage.Memory.{Memory, in_memory}
use iamzero.Tokens.{Token, TokenStorer}
use iamzero.Audit.Resources.{get_physical_id_from_arn_resource}
use iamzero.Runtime.{Env, World, ParsedArn}
use iamzero.Detective.{with_real_role}
use iamzero.Detective.Recorded.{analyse_event-Analysed}
use iamzero.Http.{RequestBody, respond_json, decode_json_body}
use iamzero.Collector.{
  censored, analyse_batch, collector_token_auth, after_get, create_event_batch, post_events,
}

module _ (env : Env) (cdk : List CdkResource) (demo : Bool) where
  -- The role of the event parses, and its advice is found.
  abbrev pub IsAnalysable : AwsEvent → Type 0
  IsAnalysable event =
      let e = with_real_role (censored demo event) in
      (arn : ParsedArn) × (physical_id : String) × (env.parse_arn e.identity.role ≡ ok arn)
      × (get_physical_id_from_arn_resource arn.resource ≡ ok physical_id)
      × ((n : ℕ)
          → (advised : List LeastPrivilegePolicy × AwsEvent) × (n' : ℕ) × (advise env.uuid e n
              ≡ (ok advised, n')))

  abbrev pub id_of : AwsAction → String
  id_of a = a.id

  analyse_batch-adds :
      (events : List AwsEvent) (w : World Memory)
      → All IsAnalysable events
      → All IsSelected w.store.actions
      → (added : List AwsAction) × (w' : World Memory) × (analyse_batch env in_memory cdk demo
            events w
          ≡ (ok (map id_of added), w'))
        × (w'.store.actions ≡ w.store.actions ++ added)
        × (length added ≡ length events)
        × All IsSelected w'.store.actions
  unfolding analyse_batch
  analyse_batch-adds [] w h all = ([], w, refl, sym (append-nil w.store.actions), refl, all)
  analyse_batch-adds (e ∷ es) w ((arn, physical_id, parsed, named, advises), h) all =
      let (a, w1, r, done) =
        analyse_event-Analysed env cdk w (censored demo e) arn physical_id parsed named advises
          all in
      let (added, w2, r2, stored, count, all2) = analyse_batch-adds es w1 h done.selected in
      (
        a ∷ added,
        w2,
        rw (r, r2) refl,
        stored ∙ ap (λ k. k ++ added) done.added ∙ append_assoc w.store.actions (a ∷ []) added,
        ap suc count,
        all2,
      )

  -- A request to POST /api/v1/events with a token that the storer has, and a body of events whose
  -- roles parse and whose advice is found, is answered 202 with one identifier for each event, in
  -- order: those of the actions that the request adds at the end of the storage.  Each stored
  -- action that counts still has a selected advisory.
  pub post_events-adds :
      {T : Type 0}
      → (tokens : TokenStorer T) (token_id : String) (body : RequestBody (List AwsEvent))
        (events : List AwsEvent) (token : Token) (t t' : T) (w : World Memory)
      → tokens.get token_id t ≡ (ok (some token), t')
      → decode_json_body body ≡ ok events
      → All IsAnalysable events
      → All IsSelected w.store.actions
      → (added : List AwsAction) × (w' : World Memory) × (post_events env in_memory tokens cdk demo
            token_id body
            (t, w)
          ≡ (ok (respond_json (map (λ a. a.id) added) 202 ∷ []), (t', w')))
        × (w'.store.actions ≡ w.store.actions ++ added)
        × (length added ≡ length events)
        × All IsSelected w'.store.actions
  unfolding post_events collector_token_auth after_get create_event_batch
  post_events-adds tokens token_id body events token t t' w known decodes h all =
      let (added, w', r, stored, count, all') = analyse_batch-adds events w h all in
      (added, w', rw (known, decodes, r) refl, stored, count, all')
