-- ===== src/Collector.antt =====
-- cmd/collector/app/routes.go, the handler of sqs_server.go, and internal/middleware's
-- collector_token_auth.go.  The state is that of the token storer and that of the storage.
pub mod Auth
pub mod Batch
pub mod Queue
pub mod Start
mod Tests
use iamzero.Prelude.{
  String, Bool, true, false, Option, none, some, List, [], ◌∷◌, ◌++◌, if◌then◌else◌,
}
use iamzero.Prelude.Outcome.{
  Outcome, ok, err, panic, plain, token_not_found, wrap_error, wrapping, Error, Exec, ◌>>=◌, ◌>>◌,
  pure, lift,
}
use iamzero.Policies.{CdkResource}
use iamzero.Recommendations.{AwsEvent, AwsAction, AwsIdentity}
use iamzero.Storage.{Storage}
use iamzero.Tokens.{Token, TokenStorer}
use iamzero.Runtime.{Env, World}
use iamzero.Detective.{analyse_event}
use iamzero.Http.{
  Response, Handler, RequestBody, cause, respond_json, respond_error, http_error, or_respond,
  respond, decode_json_body,
}

abbrev pub on_tokens : {T W A : Type 0} → Exec T A → Exec (T × W) A
on_tokens m (t, w) = let r = m t in (r.0, (r.1, w))

abbrev pub on_world : {T W A : Type 0} → Exec W A → Exec (T × W) A
on_world m (t, w) = let r = m w in (r.0, (t, r.1))

-- What the middleware makes of the error of Get: ErrTokenNotFound alone is 401.
refused_by_cause : {P : Type 0} → Error → Error → Response P
refused_by_cause token_not_found e = http_error "Unauthorized" 401
refused_by_cause c e = respond_error e

pub refused : {P : Type 0} → Error → Response P
unfolding refused_by_cause cause respond_error
refused e = refused_by_cause (cause e) e

after_get :
    {T P : Type 0}
    → (Option Token → Handler T P)
    → Outcome (Option Token) × T
    → Outcome (List (Response P)) × T
unfolding refused
after_get next (ok token, t) = next token t
after_get next (err e, t) = (ok (refused e ∷ []), t)
after_get next (panic p, t) = (panic p, t)

-- The handler that follows finds the token in its context, nil where the storer had none.
unfoldable pub collector_token_auth :
    {T P : Type 0} → Exec T (Option Token) → (Option Token → Handler T P) → Handler T P
unfolding after_get
collector_token_auth get next t = after_get next (get t)

-- A message of the queue: its body as package encoding/json decodes it (a panic where it is nil),
-- and its attribute x-iamzero-token.
pub record Message : Type 0 where
  pub body : Outcome AwsEvent
  pub token_id : Option String

unfoldable pub censored : Bool → AwsEvent → AwsEvent
censored false e = e
censored true e = record e {
  identity = record identity {
    user = "iamzero-test-user";
    role = "arn:aws:iam::123456789012:role/iamzero-test-role";
    account = "123456789012";
  };
}
  where
    open e use {identity}

module _ {S : Type 0} (env : Env) (storage : Storage S) (cdk : List CdkResource) (demo : Bool) where
  -- The loop over the events, which stops at the first that fails.
  unfoldable pub analyse_batch : List AwsEvent → Exec (World S) (List String)
  unfolding censored
  analyse_batch [] = pure []
  analyse_batch (e ∷ es) = do
    action ← analyse_event env storage cdk (censored demo e)
    ids ← analyse_batch es
    pure (action.id ∷ ids)

module _ {S T : Type 0} (env : Env) (storage : Storage S) (tokens : TokenStorer T)
    (cdk : List CdkResource) (demo : Bool) where
  unfoldable pub create_event_batch :
      RequestBody (List AwsEvent) → Option Token → Handler (T × World S) (List String)
  unfolding analyse_batch decode_json_body respond_json
  create_event_batch body none = respond (http_error "invalid token" 400)
  create_event_batch body (some token) = or_respond (lift (decode_json_body body)) λ events.
      or_respond (on_world (analyse_batch env storage cdk demo events))
        λ ids. respond (respond_json ids 202)

  -- POST /api/v1/events: the header's token, then the handler.
  unfoldable pub post_events :
      String → RequestBody (List AwsEvent) → Handler (T × World S) (List String)
  unfolding collector_token_auth create_event_batch
  post_events token_id body =
      collector_token_auth (on_tokens (tokens.get token_id)) (create_event_batch body)

  known : Option Token → Exec (T × World S) (Unit {0})
  known none = lift (err (plain "token not found"))
  known (some t) = pure tt

  stored_token : String → Exec (T × World S) (Option Token)
  stored_token id = wrapping "retrieving token from tokenStore" (on_tokens (tokens.get id))

  token_of_message : Option String → Exec (T × World S) (Unit {0})
  unfolding known stored_token
  token_of_message none = lift (
      err (
        plain
          "IAM Zero token was not found in SQS message attributes (it must be passed as the x-iamzero-token attribute)"))
  token_of_message (some id) = stored_token id >>= known

  -- `auth` is TransportSQSTokenAuth.
  unfoldable pub handle_sqs_message : Bool → Message → Exec (T × World S) (Unit {0})
  unfolding token_of_message
  handle_sqs_message auth msg = do
    event ← lift (wrap_error "unmarshling SQS message body" msg.body)
    if auth then token_of_message msg.token_id else pure tt
    on_world (analyse_event env storage cdk event)
    pure tt
