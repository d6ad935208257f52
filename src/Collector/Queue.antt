-- ===== src/Collector/Queue.antt =====
-- cmd/collector/app/sqs_server.go: the polling goroutine of Start and the workers, one step at a
-- time.  The pointer to the loop variable is the number of the batch: a range statement has one
-- variable.  A worker reads its message once for the handler and once for DeleteMessage; `handler`
-- and `delete_message` change the state X, and an error of either is only logged.  A receive that
-- fails changes nothing.
pub mod Ledger
pub mod Pointers
pub mod Once
pub mod Succeeded
pub mod Unknown
mod Tests
use iamzero.Prelude.{
  ℕ, zero, suc, String, ◌≡◌, Bool, true, false, List, [], ◌∷◌, ◌++◌, eqb, if◌then◌else◌,
}
use iamzero.Prelude.Outcome.{ok, err, Error, Exec}
use iamzero.Collector.{Message}

pub record Delivery : Type 0 where
  pub message : Message
  pub receipt_handle : String

-- Where a worker stands: before it receives from the channel, before the handler with a pointer,
-- and before DeleteMessage.
pub data Pc : Type 0 where
  idle : Pc
  received : ℕ → Pc
  handled : ℕ → Pc

-- `variables` are the loop variables of the batches, `remaining` the messages of the present batch
-- that the loop has not come to, and `sending` says that it stands at the channel.  The lists are
-- the messages that the queue gave, the runs of the handler and those without an error, and the
-- handles that were deleted.
pub record Server (X : Type 0) : Type 0 where
  pub variables : ℕ → Delivery
  pub batch : ℕ
  pub remaining : List Delivery
  pub sending : Bool
  pub workers : List Pc
  pub outside : X
  pub taken : List Delivery
  pub attempted : List Delivery
  pub succeeded : List Delivery
  pub deleted : List String

pub assign : ℕ → Delivery → (ℕ → Delivery) → ℕ → Delivery
assign b m variables k = if eqb k b then m else variables k

module _ {X : Type 0} (handler : Message → Exec X (Unit {0}))
    (delete_message : String → X → X) where
  -- `limit` says which batches ReceiveMessage may return.
  pub data Step (limit : List Delivery → Type 0) (s : Server X) : Server X → Type 0 where
    receive :
        (messages : List Delivery)
        → limit messages
        → s.remaining ≡ []
        → s.sending ≡ false
        → Step limit s
            (record s { batch = suc s.batch; remaining = messages; taken = s.taken ++ messages })
    next :
        (m : Delivery) (ms : List Delivery)
        → s.remaining ≡ m ∷ ms
        → s.sending ≡ false
        → Step limit s
            (record s { variables = assign s.batch m s.variables; remaining = ms; sending = true })
    send :
        (before after : List Pc)
        → s.sending ≡ true
        → s.workers ≡ before ++ idle ∷ after
        → Step limit s (record s { sending = false; workers = before ++ received s.batch ∷ after })
    handle :
        (b : ℕ) (before after : List Pc) (x : X)
        → s.workers ≡ before ++ received b ∷ after
        → handler (s.variables b).message s.outside ≡ (ok tt, x)
        → Step limit s (record s {
          workers = before ++ handled b ∷ after;
          outside = x;
          attempted = s.attempted ++ s.variables b ∷ [];
          succeeded = s.succeeded ++ s.variables b ∷ [];
        })
    fail :
        (b : ℕ) (before after : List Pc) (e : Error) (x : X)
        → s.workers ≡ before ++ received b ∷ after
        → handler (s.variables b).message s.outside ≡ (err e, x)
        → Step limit s (record s {
          workers = before ++ idle ∷ after;
          outside = x;
          attempted = s.attempted ++ s.variables b ∷ [];
        })
    delete :
        (b : ℕ) (before after : List Pc)
        → s.workers ≡ before ++ handled b ∷ after
        → Step limit s (record s {
          workers = before ++ idle ∷ after;
          outside = delete_message (s.variables b).receipt_handle s.outside;
          deleted = s.deleted ++ (s.variables b).receipt_handle ∷ [];
        })

  pub data Reach (limit : List Delivery → Type 0) (s : Server X) : Server X → Type 0 where
    here : Reach limit s s
    later : {t u : Server X} → Reach limit s t → Step limit t u → Reach limit s u

-- The workers that Start makes.
pub idle_workers : ℕ → List Pc
idle_workers zero = []
idle_workers (suc n) = idle ∷ idle_workers n

-- A server that has just been started, over blank variables.
abbrev pub started : {X : Type 0} → ℕ → Delivery → X → Server X
started worker_count blank x = record {
  variables = λ b. blank;
  batch = 0;
  remaining = [];
  sending = false;
  workers = idle_workers worker_count;
  outside = x;
  taken = [];
  attempted = [];
  succeeded = [];
  deleted = [];
}
