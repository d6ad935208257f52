-- ===== src/Collector/Queue/Unknown.antt =====
-- A server with TransportSQSTokenAuth, and the messages whose attribute is not a known token.
use iamzero.Prelude.{
  ℕ, ◌+◌, String, ◌≡◌, ◌≢◌, refl, Bool, true, Option, none, some, List, [], ◌∷◌, All, arith, ◌==◌,
  eq_iff, eq_refl, if◌then◌else◌, ap, Bool-cases, inl, inr,
}
use iamzero.Prelude.Outcome.{Outcome, ok, err, panic, wrap_error, Exec, after_call}
use iamzero.Policies.{CdkResource}
use iamzero.Recommendations.{AwsEvent}
use iamzero.Storage.{Storage}
use iamzero.Tokens.{Token, TokenStorer}
use iamzero.Runtime.{Env, World}
use iamzero.Detective.{analyse_event}
use iamzero.Collector.{Message, handle_sqs_message, known, stored_token, token_of_message, on_world}
use iamzero.Collector.Auth.{IsUnknown, handle_sqs_message-unknown}
use iamzero.Collector.Queue.{
  Delivery, Server, Reach, Step, here, later, receive, next, send, handle, fail, delete, started,
}
use iamzero.Collector.Queue.Ledger.{sum, receipts}
use iamzero.Collector.Queue.Pointers.{IsSmall}
use iamzero.Collector.Queue.Once.{Reach-Ledger}
use iamzero.Collector.Queue.Succeeded.{succeeded-HasRun}

module _ {T W : Type 0} (Absent : T → Type 0) where
  -- Whatever the call returns, it keeps what holds of the tokens.
  abbrev Keeping : {A : Type 0} → Exec (T × W) A → Type 0
  Keeping m = (x : T × W) → Absent x.0 → Absent (m x).1.0

  after-Keeping :
      {A B : Type 0} (r : Outcome A × (T × W)) (f : A → Exec (T × W) B)
      → Absent r.1.0
      → ((a : A) → Keeping (f a))
      → Absent (after_call r f).1.0
  after-Keeping (ok a, x) f h k = k a x h
  after-Keeping (err e, x) f h k = h
  after-Keeping (panic p, x) f h k = h

module _ {S T : Type 0} (env : Env) (storage : Storage S) (tokens : TokenStorer T)
    (cdk : List CdkResource) (demo : Bool) where
  abbrev handling : Message → Exec (T × World S) (Unit {0})
  handling = handle_sqs_message env storage tokens cdk demo true

  module _ (Absent : T → Type 0)
      (get-Absent : (i : String) (t : T) → Absent t → Absent (tokens.get i t).1) where
    known-Absent : (o : Option Token) → Keeping Absent (known env storage tokens cdk demo o)
    unfolding known
    known-Absent none x a = a
    known-Absent (some k) x a = a

    token-Absent :
        (id : Option String) → Keeping Absent (token_of_message env storage tokens cdk demo id)
    unfolding token_of_message stored_token
    token-Absent none (t, w) a = a
    token-Absent (some i) (t, w) a =
        after-Keeping Absent (stored_token env storage tokens cdk demo i (t, w))
          (known env storage tokens cdk demo) (get-Absent i t a) known-Absent

    handler-Absent : (m : Message) → Keeping Absent (handling m)
    unfolding handle_sqs_message
    handler-Absent m (t, w) a =
        after-Keeping Absent (wrap_error "unmarshling SQS message body" m.body, (t, w)) _ a
          λ event x b.
            after-Keeping Absent (token_of_message env storage tokens cdk demo m.token_id x) _
              (token-Absent m.token_id x b)
              λ u y c.
                after-Keeping Absent (on_world (analyse_event env storage cdk event) y) _ c
                  λ v z d. d

  -- A handler run of such a message does not return normally.
  handler-unknown :
      (id : String) (m : Message) (x : T × World S)
      → m.token_id ≡ some id
      → IsUnknown (tokens.get id x.0)
      → (u : Unit {0}) → (handling m x).0 ≢ ok u
  unfolding handle_sqs_message
  handler-unknown id m (t, w) e h u = on_body m.body refl
    where
      on_body : (b : Outcome AwsEvent) → m.body ≡ b → (handling m (t, w)).0 ≢ ok u
      on_body (ok event) q r =
          (handle_sqs_message-unknown env storage tokens cdk demo id event t w h).0 u
            (rw (q, e) at r)
      on_body (err x) q r = let never = rw q at r in cc
      on_body (panic p) q r = let never = rw q at r in cc

-- One for the receipt handle r, and nothing for another.
abbrev mark : String → String → ℕ
mark r h = if h == r then 1 else 0

mark-other : (r h : String) (n : ℕ) → mark r h + n ≡ 0 → (h ≢ r) × (n ≡ 0)
mark-other r h n e = (λ q. omega (arith, e, mark-same r h q), omega (arith, e))
  where
    mark-same : (r h : String) → h ≡ r → mark r h ≡ 1
    mark-same r h q = rw (q, eq_refl r) refl

unmarked : (r : String) (hs : List String) → sum (mark r) hs ≡ 0 → All (λ h. h ≢ r) hs
unmarked r [] e = tt
unmarked r (h ∷ hs) e =
    let (other, rest) = mark-other r h (sum (mark r) hs) e in (other, unmarked r hs rest)

mark-none : (r h : String) → h ≢ r → mark r h ≡ 0
mark-none r h n = elim (Bool-cases (h == r)) [
  | inl e ↦ absurd (n ((eq_iff h r).0 e))
  | inr e ↦ rw e refl
]

no-receipts :
    (P : Delivery → Type 0) (r : String)
    → ((d : Delivery) → P d → d.receipt_handle ≢ r)
    → (ds : List Delivery) → All P ds
    → sum (receipts (mark r)) ds ≡ 0
no-receipts P r k [] h = refl
no-receipts P r k (d ∷ ds) h =
    omega (arith, mark-none r d.receipt_handle (k d h.0), no-receipts P r k ds h.1)

-- One message at a time, and the message with the receipt handle r carries the token id.
abbrev pub Carries : String → String → List Delivery → Type 0
Carries r id ms = IsSmall ms × All (λ d. d.receipt_handle ≡ r → d.message.token_id ≡ some id) ms

module _ {X : Type 0} (handler : Message → Exec X (Unit {0})) (delete_message : String → X → X)
    (r id : String) where
  Step-IsSmall :
      (s t : Server X)
      → Step handler delete_message (Carries r id) s t
      → Step handler delete_message IsSmall s t
  Step-IsSmall s t (receive messages l e i) = receive messages l.0 e i
  Step-IsSmall s t (next m ms e i) = next m ms e i
  Step-IsSmall s t (send before after i w) = send before after i w
  Step-IsSmall s t (handle b before after x w q) = handle b before after x w q
  Step-IsSmall s t (fail b before after e x w q) = fail b before after e x w q
  Step-IsSmall s t (delete b before after w) = delete b before after w

  Reach-IsSmall :
      (s t : Server X)
      → Reach handler delete_message (Carries r id) s t
      → Reach handler delete_message IsSmall s t
  Reach-IsSmall s u here = here
  Reach-IsSmall s u (later {t} reach st) = later (Reach-IsSmall s t reach) (Step-IsSmall t u st)

module _ {S T : Type 0} (env : Env) (storage : Storage S) (tokens : TokenStorer T)
    (cdk : List CdkResource) (demo : Bool) (Absent : T → Type 0) where
  -- A server whose handler is HandleSQSMessage with TransportSQSTokenAuth, where ReceiveMessage
  -- returns at most one message at a time: however the poller and the workers interleave, it never
  -- deletes the message with the receipt handle r, where each message with that handle carries a
  -- token that Get of the storer does not find.  That the token is not found holds at the start, and
  -- neither Get nor DeleteMessage changes it.
  pub unknown_kept :
      (delete_message : String → T × World S → T × World S) (id r : String)
      → ((t : T) → Absent t → IsUnknown (tokens.get id t))
      → ((i : String) (t : T) → Absent t → Absent (tokens.get i t).1)
      → ((h : String) (x : T × World S) → Absent x.0 → Absent (delete_message h x).0)
      → (worker_count : ℕ) (blank : Delivery) (x : T × World S) (s : Server (T × World S))
      → Absent x.0
      → Reach
          (handle_sqs_message env storage tokens cdk demo true)
          delete_message
          (Carries r id)
          (started worker_count blank x)
          s
      → All (λ h. h ≢ r) s.deleted
  unknown_kept delete_message id r unknown get-Absent delete-Absent n blank x s a reach =
      let runs =
        succeeded-HasRun (λ d. d.receipt_handle ≡ r → d.message.token_id ≡ some id)
          (handling env storage tokens cdk demo) delete_message (Carries r id) (λ ms l. l.1)
          (λ y. Absent y.0) (handler-Absent env storage tokens cdk demo Absent get-Absent)
          delete-Absent n blank x s a reach in
      let ledger =
        Reach-Ledger (handling env storage tokens cdk demo) delete_message n blank x (λ d. 0)
          (mark r) s
          (Reach-IsSmall (handling env storage tokens cdk demo) delete_message r id
            (started n blank x) s reach) in
      let none_marked =
        no-receipts _ r
          (λ d (p, y, b, z, e) q.
            handler-unknown env storage tokens cdk demo id d.message y (p q) (unknown y.0 b) tt
              (ap (λ o. o.0) e))
          s.succeeded runs in
      unmarked r s.deleted (omega (arith, ledger.deletions, none_marked))
