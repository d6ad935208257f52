-- ===== src/Collector/Tests.antt =====
-- The collector on the sample event, with a storer that knows one token.
use iamzero.Prelude.{◌≡◌, ◌≢◌, refl, true, false, none, some, List, [], ◌∷◌, ◌++◌, map, All, length}
use iamzero.Prelude.Outcome.{ok, err, token_not_found, Error}
use iamzero.Recommendations.{AwsEvent, AwsAction}
use iamzero.Recommendations.Findings.Granted.{IsSelected}
use iamzero.Storage.Memory.{Memory, in_memory}
use iamzero.Audit.Resources.{get_physical_id_from_arn_resource}
use iamzero.Tokens.{Token, TokenStorer}
use iamzero.Tokens.Memory.{Tokens, get_token, in_memory_token_storer}
use iamzero.Runtime.{World}
use iamzero.Http.{RequestBody, decoded, decode_json_body, respond_json, http_error, cause}
use iamzero.Detective.Tests.{sample-advises, sample-IsSelected}
use iamzero.Collector.{censored, post_events}
use iamzero.Collector.Auth.{post_events-unknown}
use iamzero.Collector.Batch.{IsAnalysable, post_events-adds}
use iamzero.Samples.{env, event, world}

abbrev token : Token
token = record { id = "token"; name = "collector" }

abbrev storer : TokenStorer Tokens
storer = in_memory_token_storer (λ n i. ok 0)

abbrev one_token : Tokens
one_token = record { tokens = token ∷ []; generated = 0 }

abbrev body : RequestBody (List AwsEvent)
body = record { content_type = "application/json"; first = decoded (event ∷ []); at_end = true }

sample-IsAnalysable : IsAnalysable env [] false event
unfolding censored get_physical_id_from_arn_resource
sample-IsAnalysable = (
  record { account_id = "123456789012"; resource = "role/test-role" },
  "test-role",
  refl,
  refl,
  sample-advises,
)

post_events_example :
    (added : List AwsAction) × (w' : World Memory) × (post_events env in_memory storer [] false
        "token" body
        (one_token, world)
      ≡ (ok (respond_json (map (λ a. a.id) added) 202 ∷ []), (one_token, w')))
    × (w'.store.actions ≡ world.store.actions ++ added)
    × (length added ≡ length (event ∷ []))
    × All IsSelected w'.store.actions
unfolding decode_json_body get_token
post_events_example =
    post_events-adds env [] false storer "token" body (event ∷ []) token one_token one_token world
      refl refl (sample-IsAnalysable, tt) sample-IsSelected

is_unknown : (t : Token) → (storer.get "other" one_token).0 ≢ ok (some t)
unfolding get_token
is_unknown t q = cc

unknown_example :
    ((post_events env in_memory storer [] false "other" body (one_token, world)).1
      ≡ ((storer.get "other" one_token).1, world))
    × ((e : Error)
        → (storer.get "other" one_token).0 ≡ err e
        → cause e ≡ token_not_found
        → (post_events env in_memory storer [] false "other" body (one_token, world)).0
          ≡ ok (http_error "Unauthorized" 401 ∷ []))
    × ((storer.get "other" one_token).0 ≡ ok none
        → (post_events env in_memory storer [] false "other" body (one_token, world)).0
          ≡ ok (http_error "invalid token" 400 ∷ []))
unknown_example =
    post_events-unknown env in_memory storer [] false "other" body one_token world is_unknown
