-- ===== src/Collector/Auth.antt =====
-- Who reaches the detective through the collector.
use iamzero.Prelude.{String, Bool, true, ◌≡◌, ◌≢◌, refl, Option, none, some, List, [], ◌∷◌}
use iamzero.Prelude.Outcome.{Outcome, ok, err, panic, token_not_found, Error}
use iamzero.Policies.{CdkResource}
use iamzero.Recommendations.{AwsEvent}
use iamzero.Storage.{Storage}
use iamzero.Tokens.{Token, TokenStorer}
use iamzero.Runtime.{Env, World}
use iamzero.Http.{RequestBody, cause, http_error}
use iamzero.Collector.{
  collector_token_auth, refused, refused_by_cause, after_get, post_events, create_event_batch,
  handle_sqs_message, known, stored_token, token_of_message,
}

-- Get of the storer did not find a token.
abbrev pub IsUnknown : {T : Type 0} → Outcome (Option Token) × T → Type 0
IsUnknown r = (t : Token) → r.0 ≢ ok (some t)

module _ {S T : Type 0} (env : Env) (storage : Storage S) (tokens : TokenStorer T)
    (cdk : List CdkResource) (demo : Bool) where
  after_get-unknown :
      (body : RequestBody (List AwsEvent)) (r : Outcome (Option Token)) (t : T) (w : World S)
      → ((tok : Token) → r ≢ ok (some tok))
      → (after_get (create_event_batch env storage tokens cdk demo body) (r, (t, w))).1 ≡ (t, w)
  unfolding after_get create_event_batch
  after_get-unknown body (ok none) t w h = refl
  after_get-unknown body (ok (some tok)) t w h = absurd (h tok refl)
  after_get-unknown body (err e) t w h = refl
  after_get-unknown body (panic p) t w h = refl

  -- POST /api/v1/events does not touch the storage, nor draws an identifier, unless the storer has
  -- a token for the header.  Where Get fails with ErrTokenNotFound the answer is 401; where it
  -- returns no token and no error, the middleware lets the request pass and the answer is 400.
  pub post_events-unknown :
      (token_id : String) (body : RequestBody (List AwsEvent)) (t : T) (w : World S)
      → IsUnknown (tokens.get token_id t)
      → ((post_events env storage tokens cdk demo token_id body (t, w)).1
          ≡ ((tokens.get token_id t).1, w))
        × ((e : Error)
            → (tokens.get token_id t).0 ≡ err e
            → cause e ≡ token_not_found
            → (post_events env storage tokens cdk demo token_id body (t, w)).0
              ≡ ok (http_error "Unauthorized" 401 ∷ []))
        × ((tokens.get token_id t).0 ≡ ok none
            → (post_events env storage tokens cdk demo token_id body (t, w)).0
              ≡ ok (http_error "invalid token" 400 ∷ []))
  unfolding post_events collector_token_auth after_get refused refused_by_cause create_event_batch
  post_events-unknown token_id body t w h = (
    after_get-unknown body (tokens.get token_id t).0 (tokens.get token_id t).1 w h,
    λ e q c. rw (q, c) refl,
    λ q. rw q refl,
  )

  -- With TransportSQSTokenAuth, a message whose attribute the storer has no token for fails or
  -- panics, and so is not deleted from the queue; it leaves the storage as it was.
  pub handle_sqs_message-unknown :
      (id : String) (event : AwsEvent) (t : T) (w : World S)
      → IsUnknown (tokens.get id t)
      → (((u : Unit {0})
            → (handle_sqs_message env storage tokens cdk demo true
                (record { body = ok event; token_id = some id })
                (t, w)).0
              ≢ ok u)
          × ((handle_sqs_message env storage tokens cdk demo true
                (record { body = ok event; token_id = some id })
                (t, w)).1
              ≡ ((tokens.get id t).1, w)))
  unfolding handle_sqs_message token_of_message stored_token known
  handle_sqs_message-unknown id event t w h =
      on_result (tokens.get id t).0 (tokens.get id t).1 refl h
    where
      on_result :
          (r : Outcome (Option Token)) (t' : T)
          → tokens.get id t ≡ (r, t')
          → ((tok : Token) → r ≢ ok (some tok))
          → (((u : Unit {0})
                → (handle_sqs_message env storage tokens cdk demo true
                    (record { body = ok event; token_id = some id })
                    (t, w)).0
                  ≢ ok u)
              × ((handle_sqs_message env storage tokens cdk demo true
                    (record { body = ok event; token_id = some id })
                    (t, w)).1
                  ≡ (t', w)))
      on_result (ok none) t' e h = rw e (λ u q. cc, refl)
      on_result (ok (some tok)) t' e h = absurd (h tok refl)
      on_result (err x) t' e h = rw e (λ u q. cc, refl)
      on_result (panic p) t' e h = rw e (λ u q. cc, refl)
