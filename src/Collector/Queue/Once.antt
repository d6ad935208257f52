-- ===== src/Collector/Queue/Once.antt =====
-- How often a server handles and deletes each message.
use iamzero.Prelude.{ℕ, zero, suc, ◌≤◌, String, ◌≡◌, refl, false, List, [], ◌∷◌, All, arith, length}
use iamzero.Prelude.Outcome.{Exec}
use iamzero.Collector.{Message}
use iamzero.Collector.Queue.{
  Delivery, Pc, idle, received, handled, Server, assign, Reach, here, later, started, idle_workers,
}
use iamzero.Collector.Queue.Ledger.{sum, carried, finished, receipts, Ledger, Step-Ledger}
use iamzero.Collector.Queue.Pointers.{IsSmall, Below, Fresh, Fresh-Stable, Step-Fresh}

idle-weightless : (h : Pc → ℕ) (n : ℕ) → h idle ≡ 0 → sum h (idle_workers n) ≡ 0
unfolding idle_workers
idle-weightless h zero e = refl
idle-weightless h (suc n) e = omega (arith, e, idle-weightless h n e)

idle-Below : (k n : ℕ) → All (Below k) (idle_workers n)
unfolding idle_workers
idle-Below k zero = tt
idle-Below k (suc n) = (tt, idle-Below k n)

length-sum : {A : Type 0} (xs : List A) → sum (λ x. 1) xs ≡ length xs
length-sum [] = refl
length-sum (x ∷ xs) = omega (arith, length-sum xs)

-- A weight of one does not look at what the variables hold.
carried-ones :
    (u v : ℕ → Delivery) (ws : List Pc) → sum (carried (λ d. 1) u) ws ≡ sum (carried (λ d. 1) v) ws
carried-ones u v [] = refl
carried-ones u v (idle ∷ ws) = omega (arith, carried-ones u v ws)
carried-ones u v (received b ∷ ws) = omega (arith, carried-ones u v ws)
carried-ones u v (handled b ∷ ws) = omega (arith, carried-ones u v ws)

finished-ones :
    (u v : ℕ → Delivery) (ws : List Pc)
    → sum (finished (λ d. 1) u) ws ≡ sum (finished (λ d. 1) v) ws
finished-ones u v [] = refl
finished-ones u v (idle ∷ ws) = omega (arith, finished-ones u v ws)
finished-ones u v (received b ∷ ws) = omega (arith, finished-ones u v ws)
finished-ones u v (handled b ∷ ws) = omega (arith, finished-ones u v ws)

module _ {X : Type 0} (handler : Message → Exec X (Unit {0})) (delete_message : String → X → X)
    (worker_count : ℕ) (blank : Delivery) (x : X) where
  abbrev start : Server X
  start = started worker_count blank x

  start-Ledger : (f : Delivery → ℕ) (g : String → ℕ) → Ledger f g start
  start-Ledger f g = record {
    attempts = omega (arith, idle-weightless (carried f λ b. blank) worker_count refl);
    deletions = omega (arith, idle-weightless (finished g λ b. blank) worker_count refl);
  }

  Reach-Fresh : (s : Server X) → Reach handler delete_message IsSmall start s → Fresh s
  Reach-Fresh s here = record {
    small = tt;
    pointers = idle-Below 1 worker_count;
    alone = λ q. refl;
  }
  Reach-Fresh s (later {t} r st) = Step-Fresh handler delete_message t s st (Reach-Fresh t r)

  pub Reach-Ledger :
      (f : Delivery → ℕ) (g : String → ℕ) (s : Server X)
      → Reach handler delete_message IsSmall start s
      → Ledger f g s
  Reach-Ledger f g s here = start-Ledger f g
  Reach-Ledger f g s (later {t} r st) =
      Step-Ledger f g handler delete_message IsSmall t s st (Fresh-Stable f g t (Reach-Fresh t r))
        (Reach-Ledger f g t r)

  -- No message is left in the loop, at the channel or with a worker.
  abbrev pub IsQuiet : Server X → Type 0
  IsQuiet s = (s.remaining ≡ []) × (s.sending ≡ false) × (s.workers ≡ idle_workers worker_count)

  -- Where ReceiveMessage returns at most one message at a time, however the poller and the workers
  -- interleave: once no message is on its way, the handler has been run on exactly the messages that
  -- the queue gave, each as often as it was given, and DeleteMessage has been called with exactly
  -- the handles of the runs without an error.
  pub handled_once :
      (s : Server X)
      → Reach handler delete_message IsSmall start s
      → IsQuiet s
      → (f : Delivery → ℕ) (g : String → ℕ)
      → (sum f s.attempted ≡ sum f s.taken) × (sum g s.deleted ≡ sum (receipts g) s.succeeded)
  handled_once s r (e, i, w) f g =
      let ledger = Reach-Ledger f g s r in
      let a = ledger.attempts in
      let d = ledger.deletions in
      (
        omega (arith, rw (e, i, w) at a, idle-weightless (carried f s.variables) worker_count refl),
        omega (arith, rw w at d, idle-weightless (finished g s.variables) worker_count refl),
      )

  module _ (limit : List Delivery → Type 0) where
    Reach-ones :
        (s : Server X) → Reach handler delete_message limit start s → Ledger (λ d. 1) (λ r. 1) s
    Reach-ones s here = start-Ledger (λ d. 1) (λ r. 1)
    Reach-ones s (later {t} r st) =
        Step-Ledger (λ d. 1) (λ r. 1) handler delete_message limit t s st
          (λ m ms e. (
            carried-ones (assign t.batch m t.variables) t.variables t.workers,
            finished-ones (assign t.batch m t.variables) t.variables t.workers,
          ))
          (Reach-ones t r)

    -- However many messages ReceiveMessage returns at a time: the handler is run at most once for
    -- each message that the queue gave, and DeleteMessage at most once for each run without an error.
    pub runs_bounded :
        (s : Server X)
        → Reach handler delete_message limit start s
        → (length s.attempted ≤ length s.taken) × (length s.deleted ≤ length s.succeeded)
    runs_bounded s r =
        let ledger = Reach-ones s r in
        (
          omega (arith, ledger.attempts, length-sum s.attempted, length-sum s.taken),
          omega (arith, ledger.deletions, length-sum s.deleted, length-sum s.succeeded),
        )
