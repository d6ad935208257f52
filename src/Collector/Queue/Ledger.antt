-- ===== src/Collector/Queue/Ledger.antt =====
-- Where the messages are that the queue gives.  A weight counts the messages of a list.
use iamzero.Prelude.{ℕ, ◌+◌, String, ◌≡◌, ap, Bool, true, false, List, [], ◌∷◌, ◌++◌, arith}
use iamzero.Prelude.Outcome.{Exec}
use iamzero.Collector.{Message}
use iamzero.Collector.Queue.{
  Delivery, Pc, idle, received, handled, Server, assign, Step, receive, next, send, handle, fail,
  delete,
}

abbrev pub sum {ℓ} : {A : Type ℓ} → (A → ℕ) → List A → ℕ
sum f [] = 0
sum f (x ∷ xs) = f x + sum f xs

sum-append {ℓ} : {A : Type ℓ} (f : A → ℕ) (xs ys : List A) → sum f (xs ++ ys) ≡ sum f xs + sum f ys
sum-append f [] ys = omega arith
sum-append f (x ∷ xs) ys = omega (arith, sum-append f xs ys)

-- What a worker carries to the handler, and to DeleteMessage.
abbrev pub carried : (Delivery → ℕ) → (ℕ → Delivery) → Pc → ℕ
carried f variables idle = 0
carried f variables (received b) = f (variables b)
carried f variables (handled b) = 0

abbrev pub finished : (String → ℕ) → (ℕ → Delivery) → Pc → ℕ
finished g variables idle = 0
finished g variables (received b) = 0
finished g variables (handled b) = g (variables b).receipt_handle

abbrev pub at_channel : ℕ → Bool → ℕ
at_channel w true = w
at_channel w false = 0

abbrev pub receipts : (String → ℕ) → Delivery → ℕ
receipts g d = g d.receipt_handle

-- One worker moves from p to q.
sum-move :
    {A : Type 0} (h : A → ℕ) (before after : List A) (p q : A)
    → sum h (before ++ q ∷ after) + h p ≡ sum h (before ++ p ∷ after) + h q
sum-move h before after p q =
    omega (arith, sum-append h before (p ∷ after), sum-append h before (q ∷ after))

sum-snoc : {A : Type 0} (h : A → ℕ) (xs : List A) (x : A) → sum h (xs ++ x ∷ []) ≡ sum h xs + h x
sum-snoc h xs x = omega (arith, sum-append h xs (x ∷ []))

pub assign-same : (b : ℕ) (m : Delivery) (variables : ℕ → Delivery) → assign b m variables b ≡ m
unfolding assign
assign-same b m variables = ground arith

module _ (f : Delivery → ℕ) (g : String → ℕ) {X : Type 0} where
  -- Each message is in one place, and so is each run without an error.
  pub record Ledger (s : Server X) : Type 0 where
    pub attempts :
        sum f s.attempted
          + (sum (carried f s.variables) s.workers
              + (at_channel (f (s.variables s.batch)) s.sending + sum f s.remaining))
        ≡ sum f s.taken
    pub deletions :
        sum g s.deleted + sum (finished g s.variables) s.workers ≡ sum (receipts g) s.succeeded

  -- Setting the loop variable does not change what the workers carry.
  abbrev pub Stable : Server X → Type 0
  Stable s =
      (m : Delivery) (ms : List Delivery)
      → s.remaining ≡ m ∷ ms
      → (sum (carried f (assign s.batch m s.variables)) s.workers
          ≡ sum (carried f s.variables) s.workers)
        × (sum (finished g (assign s.batch m s.variables)) s.workers
            ≡ sum (finished g s.variables) s.workers)

  module _ (handler : Message → Exec X (Unit {0})) (delete_message : String → X → X)
      (limit : List Delivery → Type 0) where
    pub Step-Ledger :
        (s t : Server X) → Step handler delete_message limit s t → Stable s → Ledger s → Ledger t
    Step-Ledger s t (receive messages l e i) stable h =
        let a = h.attempts in
        record {
          attempts = rw i (omega (arith, rw (e, i) at a, sum-append f s.taken messages));
          deletions = h.deletions;
        }
    Step-Ledger s t (next m ms e i) stable h =
        let a = h.attempts in
        let (c, d) = stable m ms e in
        record {
          attempts = omega (arith, rw (e, i) at a, c, ap f (assign-same s.batch m s.variables));
          deletions = omega (arith, h.deletions, d);
        }
    Step-Ledger s t (send before after i w) stable h =
        let a = h.attempts in
        let d = h.deletions in
        record {
          attempts = omega (
            arith,
            rw (i, w) at a,
            sum-move (carried f s.variables) before after idle (received s.batch),
          );
          deletions = omega (
            arith,
            rw w at d,
            sum-move (finished g s.variables) before after idle (received s.batch),
          );
        }
    Step-Ledger s t (handle b before after x w r) stable h =
        let a = h.attempts in
        let d = h.deletions in
        record {
          attempts = omega (
            arith,
            rw w at a,
            sum-move (carried f s.variables) before after (received b) (handled b),
            sum-snoc f s.attempted (s.variables b),
          );
          deletions = omega (
            arith,
            rw w at d,
            sum-move (finished g s.variables) before after (received b) (handled b),
            sum-snoc (receipts g) s.succeeded (s.variables b),
          );
        }
    Step-Ledger s t (fail b before after e x w r) stable h =
        let a = h.attempts in
        let d = h.deletions in
        record {
          attempts = omega (
            arith,
            rw w at a,
            sum-move (carried f s.variables) before after (received b) idle,
            sum-snoc f s.attempted (s.variables b),
          );
          deletions =
              omega (
                arith,
                rw w at d,
                sum-move (finished g s.variables) before after (received b) idle,
              );
        }
    Step-Ledger s t (delete b before after w) stable h =
        let a = h.attempts in
        let d = h.deletions in
        record {
          attempts =
              omega
                (arith, rw w at a, sum-move (carried f s.variables) before after (handled b) idle);
          deletions = omega (
            arith,
            rw w at d,
            sum-move (finished g s.variables) before after (handled b) idle,
            sum-snoc g s.deleted (s.variables b).receipt_handle,
          );
        }
