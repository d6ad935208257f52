-- ===== src/Collector/Queue/Pointers.antt =====
-- Where ReceiveMessage returns one message at a time, no loop variable is set again while a worker
-- has a pointer to it.
use iamzero.Prelude.{ℕ, suc, ◌≤◌, ◌<◌, String, ◌≡◌, refl, true, List, [], ◌∷◌, ◌++◌, All, arith}
use iamzero.Prelude.Outcome.{Exec}
use iamzero.Collector.{Message}
use iamzero.Collector.Queue.{
  Delivery, Pc, idle, received, handled, Server, assign, Step, receive, next, send, handle, fail,
  delete,
}
use iamzero.Collector.Queue.Ledger.{sum, carried, finished, Stable}

-- At most one message: what ReceiveMessage returns where no number is asked for.
abbrev pub IsSmall : List Delivery → Type 0
IsSmall [] = Unit
IsSmall (m ∷ []) = Unit
IsSmall (m ∷ n ∷ ms) = ⊥

-- The worker has no pointer of a batch from that number on.
abbrev pub Below : ℕ → Pc → Type 0
Below n idle = Unit
Below n (received b) = b < n
Below n (handled b) = b < n

-- Where a message remains, the loop variable is still to be set.
abbrev pub first_unset : List Delivery → ℕ → ℕ
first_unset [] batch = suc batch
first_unset (m ∷ ms) batch = batch

pub record Fresh {X : Type 0} (s : Server X) : Type 0 where
  pub small : IsSmall s.remaining
  pub pointers : All (Below (first_unset s.remaining s.batch)) s.workers
  pub alone : s.sending ≡ true → s.remaining ≡ []

Below-weaken : (m n : ℕ) (ws : List Pc) → m ≤ n → All (Below m) ws → All (Below n) ws
Below-weaken m n [] le h = tt
Below-weaken m n (idle ∷ ws) le h = (tt, Below-weaken m n ws le h.1)
Below-weaken m n (received b ∷ ws) le h = (omega (arith, h.0), Below-weaken m n ws le h.1)
Below-weaken m n (handled b ∷ ws) le h = (omega (arith, h.0), Below-weaken m n ws le h.1)

pub All-move :
    {A : Type 0} (P : A → Type 0) (before after : List A) (p q : A)
    → All P (before ++ p ∷ after)
    → (P p → P q)
    → All P (before ++ q ∷ after)
All-move P [] after p q h k = (k h.0, h.1)
All-move P (w ∷ before) after p q h k = (h.0, All-move P before after p q h.1 k)

assign-other :
    (b k : ℕ) (m : Delivery) (variables : ℕ → Delivery)
    → k < b
    → assign b m variables k ≡ variables k
unfolding assign
assign-other b k m variables lt = ground arith

carried-assign :
    (f : Delivery → ℕ) (b : ℕ) (m : Delivery) (variables : ℕ → Delivery) (ws : List Pc)
    → All (Below b) ws
    → sum (carried f (assign b m variables)) ws ≡ sum (carried f variables) ws
carried-assign f b m variables [] h = refl
carried-assign f b m variables (idle ∷ ws) h = omega (arith, carried-assign f b m variables ws h.1)
carried-assign f b m variables (received k ∷ ws) h =
    rw (assign-other b k m variables h.0) (omega (arith, carried-assign f b m variables ws h.1))
carried-assign f b m variables (handled k ∷ ws) h =
    omega (arith, carried-assign f b m variables ws h.1)

finished-assign :
    (g : String → ℕ) (b : ℕ) (m : Delivery) (variables : ℕ → Delivery) (ws : List Pc)
    → All (Below b) ws
    → sum (finished g (assign b m variables)) ws ≡ sum (finished g variables) ws
finished-assign g b m variables [] h = refl
finished-assign g b m variables (idle ∷ ws) h =
    omega (arith, finished-assign g b m variables ws h.1)
finished-assign g b m variables (received k ∷ ws) h =
    omega (arith, finished-assign g b m variables ws h.1)
finished-assign g b m variables (handled k ∷ ws) h =
    rw (assign-other b k m variables h.0) (omega (arith, finished-assign g b m variables ws h.1))

pub Fresh-Stable :
    {X : Type 0} (f : Delivery → ℕ) (g : String → ℕ) (s : Server X) → Fresh s → Stable f g s
Fresh-Stable f g s h m ms e =
    let below = h.pointers in
    let p = rw e at below in
    (
      carried-assign f s.batch m s.variables s.workers p,
      finished-assign g s.batch m s.variables s.workers p,
    )

IsSmall-tail : (m : Delivery) (ms : List Delivery) → IsSmall (m ∷ ms) → ms ≡ []
IsSmall-tail m [] h = refl
IsSmall-tail m (n ∷ ms) h = absurd h

module _ {X : Type 0} (handler : Message → Exec X (Unit {0}))
    (delete_message : String → X → X) where
  pub Step-Fresh : (s t : Server X) → Step handler delete_message IsSmall s t → Fresh s → Fresh t
  Step-Fresh s t (receive [] l e i) h =
      let below = h.pointers in
      record {
        small = tt;
        pointers =
            Below-weaken (suc s.batch) (suc (suc s.batch)) s.workers (omega arith) (rw e at below);
        alone = λ q. refl;
      }
  Step-Fresh s t (receive (m ∷ []) l e i) h =
      let below = h.pointers in record { small = tt; pointers = rw e at below; alone = λ q. cc }
  Step-Fresh s t (receive (m ∷ n ∷ ms) l e i) h = absurd l
  Step-Fresh s t (next m ms e i) h =
      let small = h.small in
      let below = h.pointers in
      let none_left = IsSmall-tail m ms (rw e at small) in
      record {
        small = rw none_left tt;
        pointers =
            rw none_left
              (Below-weaken s.batch (suc s.batch) s.workers (omega arith) (rw e at below));
        alone = λ q. none_left;
      }
  Step-Fresh s t (send before after i w) h =
      let below = h.pointers in
      let none_left = h.alone i in
      record {
        small = h.small;
        pointers =
            All-move (Below (first_unset s.remaining s.batch)) before after idle (received s.batch)
              (rw w at below) λ u. rw none_left (omega arith);
        alone = λ q. none_left;
      }
  Step-Fresh s t (handle b before after x w r) h =
      let below = h.pointers in
      record {
        small = h.small;
        pointers =
            All-move (Below (first_unset s.remaining s.batch)) before after (received b) (handled b)
              (rw w at below) λ u. u;
        alone = h.alone;
      }
  Step-Fresh s t (fail b before after e x w r) h =
      let below = h.pointers in
      record {
        small = h.small;
        pointers =
            All-move (Below (first_unset s.remaining s.batch)) before after (received b) idle
              (rw w at below) λ u. tt;
        alone = h.alone;
      }
  Step-Fresh s t (delete b before after w) h =
      let below = h.pointers in
      record {
        small = h.small;
        pointers =
            All-move (Below (first_unset s.remaining s.batch)) before after (handled b) idle
              (rw w at below) λ u. tt;
        alone = h.alone;
      }
