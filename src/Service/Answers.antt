-- ===== src/Service/Answers.antt =====
-- What the health check answers while the service runs, and when it shuts down.
use iamzero.Prelude.{◌-◌, ◌≡◌, refl, Bool, true, false, Option, List, [], ◌∷◌}
use iamzero.Prelude.Outcome.{ok}
use iamzero.Recommendations.{Time}
use iamzero.Health.{State, Status, ready, set, handle, new}
use iamzero.Service.{
  Main, setting_up, storing, looping, interrupted, stopped, serving, Process, Step, signal,
  set_ready, set_status, store, interrupt, shut_down, close, serve_fails, set_broken, store_broken,
  Reach, here, later, launched,
}

-- Whether RunAndThen has made the service ready.
abbrev pub is_set : Main → Bool
is_set setting_up = false
is_set (storing x old) = false
is_set _ = true

-- While the admin server serves and only RunAndThen sets the status.
abbrev Alone : Main → State → List (Time × Status) → Type 0
Alone setting_up health stores = (health ≡ new) × (stores ≡ [])
Alone (storing x old) health stores = (x ≡ ready) × (old ≡ new) × (health ≡ new) × (stores ≡ [])
Alone _ health stores =
    (t : Time) × (health ≡ record { status = ready; up_since = t }) × (stores ≡ (t, ready) ∷ [])

module _ {X : Type 0} (shutdown : Option (X → X)) where
  abbrev pub NoStatus : Status → Type 0
  NoStatus x = ⊥

  Step-Alone :
      (s t : Process X)
      → Step shutdown NoStatus s t
      → (s.admin ≡ serving → Alone s.main s.health s.stores)
      → t.admin ≡ serving
      → Alone t.main t.health t.stores
  unfolding set new
  Step-Alone s t signal h a = h a
  Step-Alone s t (set_ready e) h a = let k = h a in let (p, q) = rw e at k in (refl, p, p, q)
  Step-Alone s t (set_status x n e) h a = absurd n
  Step-Alone s t (store now x old e) h a =
      let k = h a in let (i, j, p, q) = rw e at k in (now, rw (i, j) refl, rw (i, q) refl)
  Step-Alone s t (interrupt e p) h a = let k = h a in rw e at k
  Step-Alone s t (shut_down e) h a = let k = h a in rw e at k
  Step-Alone s t (close e) h a = cc
  Step-Alone s t (serve_fails e) h a = cc
  Step-Alone s t (set_broken e) h a = cc
  Step-Alone s t (store_broken now old e) h a = cc

  Reach-Alone :
      (x : X) (s : Process X)
      → Reach shutdown NoStatus (launched x) s
      → s.admin ≡ serving
      → Alone s.main s.health s.stores
  unfolding launched
  Reach-Alone x s here a = (refl, refl)
  Reach-Alone x s (later {t} r st) a = Step-Alone t s st (Reach-Alone x t r) a

  -- The answers to one request: 503 where Ready has not been set, 200 with the time of Ready after.
  abbrev pub Answers : Main → State → List (Time × Status) → Time → Type 0
  Answers m health stores now =
      (is_set m ≡ false
        → handle now health
          ≡ ok (record {
            status_code = 503;
            status_msg = "Server not available";
            up_since = 0;
            uptime = 0;
          }))
      × (is_set m ≡ true
          → (t : Time) × (stores ≡ (t, ready) ∷ [])
            × (handle now health
                ≡ ok (record {
                  status_code = 200;
                  status_msg = "Server available";
                  up_since = t;
                  uptime = now - t;
                })))

  Alone-Answers :
      (m : Main) (health : State) (stores : List (Time × Status)) (now : Time)
      → Alone m health stores
      → Answers m health stores now
  unfolding handle new
  Alone-Answers setting_up health stores now (p, q) = (λ e. rw p refl, λ e. cc)
  Alone-Answers (storing x old) health stores now (i, j, p, q) = (λ e. rw p refl, λ e. cc)
  Alone-Answers looping health stores now (t, p, q) = (λ e. cc, λ e. (t, q, rw p refl))
  Alone-Answers interrupted health stores now (t, p, q) = (λ e. cc, λ e. (t, q, rw p refl))
  Alone-Answers stopped health stores now (t, p, q) = (λ e. cc, λ e. (t, q, rw p refl))

  -- Where nothing is sent on hcStatusChannel: however the signals and the goroutine of the admin
  -- server interleave with RunAndThen, a request to the health check that comes while the admin
  -- server serves is answered with 503 until RunAndThen has set Ready, and with 200 from then on,
  -- also while the service shuts down; `upSince` is the time at which Ready was set, which is the one
  -- call of Set that was done.
  pub health_while_serving :
      (x : X) (s : Process X)
      → Reach shutdown NoStatus (launched x) s
      → s.admin ≡ serving
      → (now : Time) → Answers s.main s.health s.stores now
  health_while_serving x s r a now =
      Alone-Answers s.main s.health s.stores now (Reach-Alone x s r a)
