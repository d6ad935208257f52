-- ===== src/Collector/Queue/Succeeded.antt =====
-- What holds of every message that the queue gives holds of each that is handled without an error.
use iamzero.Prelude.{
  ℕ, zero, suc, String, ◌≡◌, true, List, [], ◌∷◌, ◌++◌, All, eqb, Bool-cases, inl, inr,
}
use iamzero.Prelude.Outcome.{Outcome, ok, err, Exec}
use iamzero.Collector.{Message}
use iamzero.Collector.Queue.{
  Delivery, Pc, idle, received, handled, Server, assign, Step, Reach, receive, next, send, handle,
  fail, delete, here, later, started, idle_workers,
}
use iamzero.Collector.Queue.Ledger.{assign-same}
use iamzero.Collector.Queue.Pointers.{All-move}

module _ (P : Delivery → Type 0) where
  -- The messages that a worker has a pointer to.
  abbrev Points : (ℕ → Delivery) → Pc → Type 0
  Points variables idle = Unit
  Points variables (received b) = P (variables b)
  Points variables (handled b) = P (variables b)

  All-snoc :
      {A : Type 0} (Q : A → Type 0) (xs : List A) (x : A) → All Q xs → Q x → All Q (xs ++ x ∷ [])
  All-snoc Q [] x h q = (q, tt)
  All-snoc Q (y ∷ xs) x h q = (h.0, All-snoc Q xs x h.1 q)

  All-at :
      {A : Type 0} (Q : A → Type 0) (before after : List A) (x : A)
      → All Q (before ++ x ∷ after)
      → Q x
  All-at Q [] after x h = h.0
  All-at Q (y ∷ before) after x h = All-at Q before after x h.1

  assign-keeps :
      (b k : ℕ) (m : Delivery) (variables : ℕ → Delivery)
      → P m
      → P (variables k)
      → P (assign b m variables k)
  unfolding assign
  assign-keeps b k m variables p q = elim (Bool-cases (eqb k b)) [ inl e ↦ rw e p | inr e ↦ rw e q ]

  assign-own : (b : ℕ) (m : Delivery) (variables : ℕ → Delivery) → P m → P (assign b m variables b)
  assign-own b m variables p = rw (assign-same b m variables) p

  Points-assign :
      (b : ℕ) (m : Delivery) (variables : ℕ → Delivery) (ws : List Pc)
      → P m
      → All (Points variables) ws
      → All (Points (assign b m variables)) ws
  Points-assign b m variables [] p h = tt
  Points-assign b m variables (idle ∷ ws) p h = (tt, Points-assign b m variables ws p h.1)
  Points-assign b m variables (received k ∷ ws) p h =
      (assign-keeps b k m variables p h.0, Points-assign b m variables ws p h.1)
  Points-assign b m variables (handled k ∷ ws) p h =
      (assign-keeps b k m variables p h.0, Points-assign b m variables ws p h.1)

  module _ {X : Type 0} (handler : Message → Exec X (Unit {0})) (delete_message : String → X → X)
      (limit : List Delivery → Type 0) (limit-All : (ms : List Delivery) → limit ms → All P ms)
      (Keeps : X → Type 0) (handler-Keeps : (m : Message) (x : X) → Keeps x → Keeps (handler m x).1)
      (delete-Keeps : (r : String) (x : X) → Keeps x → Keeps (delete_message r x)) where
    -- The message has the property, and the handler succeeds on it in some such state.
    abbrev pub HasRun : Delivery → Type 0
    HasRun d = P d × (x : X) × Keeps x × (y : X) × (handler d.message x ≡ (ok tt, y))

    after-Keeps :
        (m : Message) (x y : X) (o : Outcome (Unit {0})) → handler m x ≡ (o, y) → Keeps x → Keeps y
    after-Keeps m x y o r k = let kept = handler-Keeps m x k in rw r at kept

    record Holds (s : Server X) : Type 0 where
      in_loop : All P s.remaining
      at_workers : All (Points s.variables) s.workers
      in_variable : s.sending ≡ true → P (s.variables s.batch)
      keeps : Keeps s.outside
      runs : All HasRun s.succeeded

    Step-Holds : (s t : Server X) → Step handler delete_message limit s t → Holds s → Holds t
    Step-Holds s t (receive messages l e i) h = record {
      in_loop = limit-All messages l;
      at_workers = h.at_workers;
      in_variable = λ q. cc;
      keeps = h.keeps;
      runs = h.runs;
    }
    Step-Holds s t (next m ms e i) h =
        let all = h.in_loop in
        let (p, rest) : P m × All P ms = rw e at all in
        record {
          in_loop = rest;
          at_workers = Points-assign s.batch m s.variables s.workers p h.at_workers;
          in_variable = λ q. assign-own s.batch m s.variables p;
          keeps = h.keeps;
          runs = h.runs;
        }
    Step-Holds s t (send before after i w) h =
        let at = h.at_workers in
        record {
          in_loop = h.in_loop;
          at_workers =
              All-move (Points s.variables) before after idle (received s.batch) (rw w at at)
                λ u. h.in_variable i;
          in_variable = λ q. cc;
          keeps = h.keeps;
          runs = h.runs;
        }
    Step-Holds s t (handle b before after x w r) h =
        let at = h.at_workers in
        let moved = rw w at at in
        record {
          in_loop = h.in_loop;
          at_workers =
              All-move (Points s.variables) before after (received b) (handled b) moved λ u. u;
          in_variable = h.in_variable;
          keeps = after-Keeps (s.variables b).message s.outside x (ok tt) r h.keeps;
          runs = All-snoc HasRun s.succeeded (s.variables b) h.runs (
            All-at (Points s.variables) before after (received b) moved,
            s.outside,
            h.keeps,
            x,
            r,
          );
        }
    Step-Holds s t (fail b before after e x w r) h =
        let at = h.at_workers in
        record {
          in_loop = h.in_loop;
          at_workers =
              All-move (Points s.variables) before after (received b) idle (rw w at at) λ u. tt;
          in_variable = h.in_variable;
          keeps = after-Keeps (s.variables b).message s.outside x (err e) r h.keeps;
          runs = h.runs;
        }
    Step-Holds s t (delete b before after w) h =
        let at = h.at_workers in
        record {
          in_loop = h.in_loop;
          at_workers =
              All-move (Points s.variables) before after (handled b) idle (rw w at at) λ u. tt;
          in_variable = h.in_variable;
          keeps = delete-Keeps (s.variables b).receipt_handle s.outside h.keeps;
          runs = h.runs;
        }

    idle-Points : (variables : ℕ → Delivery) (n : ℕ) → All (Points variables) (idle_workers n)
    unfolding idle_workers
    idle-Points variables zero = tt
    idle-Points variables (suc n) = (tt, idle-Points variables n)

    Reach-Holds :
        (n : ℕ) (blank : Delivery) (x : X) (s : Server X)
        → Keeps x
        → Reach handler delete_message limit (started n blank x) s
        → Holds s
    Reach-Holds n blank x s k here = record {
      in_loop = tt;
      at_workers = idle-Points (λ b. blank) n;
      in_variable = λ q. cc;
      keeps = k;
      runs = tt;
    }
    Reach-Holds n blank x s k (later {t} r st) = Step-Holds t s st (Reach-Holds n blank x t k r)

    pub succeeded-HasRun :
        (n : ℕ) (blank : Delivery) (x : X) (s : Server X)
        → Keeps x
        → Reach handler delete_message limit (started n blank x) s
        → All HasRun s.succeeded
    succeeded-HasRun n blank x s k r = (Reach-Holds n blank x s k r).runs
