-- ===== src/Collector/Queue/Tests.antt =====
-- Servers whose handler is HandleSQSMessage without token authentication, over the in-memory
-- storage.
use iamzero.Prelude.{
  ◌≤◌, String, ◌≡◌, refl, true, false, none, some, ◌≢◌, All, List, [], ◌∷◌, length,
}
use iamzero.Prelude.Outcome.{ok, err, plain, wrap, Error, Exec}
use iamzero.Storage.Memory.{Memory, in_memory}
use iamzero.Audit.Resources.{get_physical_id_from_arn_resource}
use iamzero.Tokens.{TokenStorer}
use iamzero.Tokens.Memory.{Tokens, get_token, in_memory_token_storer}
use iamzero.Runtime.{World}
use iamzero.Detective.Recorded.{analyse_event-Analysed}
use iamzero.Detective.Tests.{sample-advises, sample-IsSelected}
use iamzero.Collector.{Message, handle_sqs_message, token_of_message, stored_token, known}
use iamzero.Collector.Queue.{
  Delivery, Server, started, Reach, here, later, receive, next, send, handle, fail, delete, assign,
  idle_workers,
}
use iamzero.Collector.Queue.Ledger.{sum, receipts}
use iamzero.Collector.Queue.Pointers.{IsSmall}
use iamzero.Collector.Queue.Once.{handled_once, runs_bounded}
use iamzero.Collector.Queue.Unknown.{Carries, unknown_kept}
use iamzero.Samples.{env, event, world}

-- The tokens and the storage, and what has been deleted from the queue.
abbrev Shared : Type 0
Shared = Tokens × World Memory

abbrev no_tokens : Tokens
no_tokens = record { tokens = []; generated = 0 }

abbrev handler : Message → Exec Shared (Unit {0})
handler = handle_sqs_message env in_memory (in_memory_token_storer λ n i. ok 0) [] false false

abbrev delete_message : String → Shared → Shared
delete_message receipt s = s

abbrev bad : Delivery
bad = record {
  message = record { body = err (plain "invalid character"); token_id = none };
  receipt_handle = "bad";
}

bad_run :
    (w : World Memory)
    → handler bad.message (no_tokens, w)
      ≡ (err (wrap "unmarshling SQS message body" (plain "invalid character")), (no_tokens, w))
unfolding handle_sqs_message
bad_run w = refl

-- Any number of messages.
abbrev AnyBatch : List Delivery → Type 0
AnyBatch ms = Unit

-- One message is taken, and its handler fails.
abbrev one_failed : Server Shared
one_failed = record (started 2 bad (no_tokens, world)) {
  variables = assign 1 bad (λ b. bad);
  batch = 1;
  taken = bad ∷ [];
  attempted = bad ∷ [];
}

one_failed-reached :
    (limit : List Delivery → Type 0)
    → limit (bad ∷ [])
    → Reach handler delete_message limit (started 2 bad (no_tokens, world)) one_failed
unfolding assign idle_workers
one_failed-reached limit l =
    later
      (later (later (later here (receive (bad ∷ []) l refl refl)) (next bad [] refl refl))
        (send [] _ refl refl))
      (fail 1 [] _ _ _ refl (bad_run world))

handled_once_example :
    (sum (λ d. 1) one_failed.attempted ≡ sum (λ d. 1) one_failed.taken)
    × (sum (λ r. 1) one_failed.deleted ≡ sum (receipts λ r. 1) one_failed.succeeded)
handled_once_example =
    handled_once handler delete_message 2 bad (no_tokens, world) one_failed
      (one_failed-reached IsSmall tt) (refl, refl, refl) (λ d. 1) (λ r. 1)

runs_bounded_example :
    (length one_failed.attempted ≤ length one_failed.taken)
    × (length one_failed.deleted ≤ length one_failed.succeeded)
runs_bounded_example =
    runs_bounded handler delete_message 2 bad (no_tokens, world) AnyBatch one_failed
      (one_failed-reached AnyBatch tt)

-- With TransportSQSTokenAuth, over a storer that knows the token "token" alone.
abbrev storer : TokenStorer Tokens
storer = in_memory_token_storer λ n i. ok 0

abbrev one_token : Tokens
one_token = record { tokens = record { id = "token"; name = "collector" } ∷ []; generated = 0 }

abbrev with_token : String → String → Delivery
with_token id receipt = record {
  message = record { body = ok event; token_id = some id };
  receipt_handle = receipt;
}

known_run :
    (w' : World Memory) × (handle_sqs_message env in_memory storer [] false true
        (with_token "token" "first").message
        (one_token, world)
      ≡ (ok tt, (one_token, w')))
unfolding handle_sqs_message token_of_message stored_token known get_token
    get_physical_id_from_arn_resource
known_run =
    let (a, w', e, _) =
      analyse_event-Analysed env [] world event
        (record { account_id = "123456789012"; resource = "role/test-role" }) "test-role" refl refl
        sample-advises sample-IsSelected in
    (w', rw e refl)

unknown_run :
    (w : World Memory)
    → (e : Error) × (handle_sqs_message env in_memory storer [] false true
          (with_token "other" "second").message
          (one_token, w)
        ≡ (err e, (one_token, w)))
unfolding handle_sqs_message token_of_message stored_token known get_token
unknown_run w = (_, refl)

-- One worker handles and deletes the first message, and fails on the second.
session :
    (s : Server Shared) × Reach
      (handle_sqs_message env in_memory storer [] false true)
      delete_message
      (Carries "second" "other")
      (started 1 bad (one_token, world))
      s
    × (s.deleted ≡ "first" ∷ [])
unfolding assign idle_workers
session =
    let (w', e) = known_run in
    (
      _,
      later
          (later
            (later
              (later
                (later
                  (later
                    (later
                      (later
                        (later here (
                          receive (with_token "token" "first" ∷ []) (tt, ((λ q. cc), tt)) refl
                            refl))
                        (next (with_token "token" "first") [] refl refl))
                      (send [] [] refl refl))
                    (handle 1 [] [] (one_token, w') refl e))
                  (delete 1 [] [] refl))
                (receive (with_token "other" "second" ∷ []) (tt, ((λ q. refl), tt)) refl refl))
              (next (with_token "other" "second") [] refl refl))
            (send [] [] refl refl))
          (fail 2 [] [] (unknown_run w').0 (one_token, w') refl (unknown_run w').1),
      refl,
    )

unknown_kept_example : All (λ h. h ≢ "second") session.0.deleted
unfolding get_token
unknown_kept_example =
    unknown_kept env in_memory storer [] false (λ t. t ≡ one_token) delete_message "other" "second"
      (λ t q tok e. let found = rw q at e in cc) (λ i t q. q) (λ h x q. q) 1 bad (one_token, world)
      session.0 refl session.1
