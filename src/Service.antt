-- ===== src/Service.antt =====
-- pkg/service: service.go, and the goroutine of the admin server of admin.go.  RunAndThen and that
-- goroutine share the health check; Set of the check loads its state and stores a new one, which
-- are two steps.  Nothing in the repository sends on hcStatusChannel: `sent` says what may be.
pub mod Answers
pub mod Shutdown
mod Tests
use iamzero.Prelude.{
  ℕ, suc, ◌+◌, String, ◌≡◌, Bool, true, false, Option, none, some, List, [], ◌∷◌, ◌++◌,
}
use iamzero.Prelude.Text.{◌<>◌}
use iamzero.Prelude.Digits.{decimal}
use iamzero.Prelude.Outcome.{Outcome, and_then, ok, wrap_error}
use iamzero.Recommendations.{Time}
use iamzero.Health.{State, Status, ready, broken, new, set}

-- portToHostPort.
unfoldable pub port_to_host_port : ℕ → String
unfolding decimal
port_to_host_port port = ":" <> decimal port

-- Start of the service: the level of the logger, the logger, and the listener of the admin server.
-- `unmarshal_text` and `build` are those of package zap, `listen` is net.Listen.
unfoldable pub start :
    {Level Logger Listener : Type 0}
    → (String → Outcome Level)
    → (Level → Outcome Logger)
    → (String → Outcome Listener)
    → String
    → ℕ
    → Outcome (Logger × Listener)
unfolding port_to_host_port
start unmarshal_text build listen log_level admin_port =
    and_then (unmarshal_text log_level) λ level. and_then (build level) λ logger.
      and_then (wrap_error "starting admin server" (listen (port_to_host_port admin_port)))
        λ listener. ok (logger, listener)

-- Where the goroutine that calls RunAndThen stands: before the call, in Set with what it loaded, in
-- the loop, after the loop, and after shutdown.
pub data Main : Type 0 where
  setting_up : Main
  storing : Status → State → Main
  looping : Main
  interrupted : Main
  stopped : Main

-- Where the goroutine of the admin server stands: in Serve, after Serve failed, in Set, at its end.
pub data Admin : Type 0 where
  serving : Admin
  failed : Admin
  storing_broken : State → Admin
  ended : Admin

-- `pending` says that the buffer of signalsChannel, which has one place, holds a signal.  `stores`
-- are the calls of Set that are done, `signals` counts the signals and `shutdowns` the shutdowns.
pub record Process (X : Type 0) : Type 0 where
  pub main : Main
  pub admin : Admin
  pub health : State
  pub pending : Bool
  pub outside : X
  pub stores : List (Time × Status)
  pub signals : ℕ
  pub shutdowns : ℕ

-- `if shutdown != nil { shutdown() }`.
abbrev pub shut_down_by : {X : Type 0} → Option (X → X) → X → X
shut_down_by none x = x
shut_down_by (some shutdown) x = shutdown x

module _ {X : Type 0} (shutdown : Option (X → X)) (sent : Status → Type 0) where
  pub data Step (s : Process X) : Process X → Type 0 where
    signal : Step s (record s { pending = true; signals = suc s.signals })
    set_ready : s.main ≡ setting_up → Step s (record s { main = storing ready s.health })
    set_status :
        (status : Status)
        → sent status
        → s.main ≡ looping
        → Step s (record s { main = storing status s.health })
    store :
        (now : Time) (status : Status) (old : State)
        → s.main ≡ storing status old
        → Step s (record s {
          main = looping;
          health = set now status old;
          stores = s.stores ++ (now, status) ∷ [];
        })
    interrupt :
        s.main ≡ looping
        → s.pending ≡ true
        → Step s (record s { main = interrupted; pending = false })
    shut_down :
        s.main ≡ interrupted
        → Step s (record s {
          main = stopped;
          outside = shut_down_by shutdown s.outside;
          shutdowns = suc s.shutdowns;
        })
    close : s.admin ≡ serving → Step s (record s { admin = ended })
    serve_fails : s.admin ≡ serving → Step s (record s { admin = failed })
    set_broken : s.admin ≡ failed → Step s (record s { admin = storing_broken s.health })
    store_broken :
        (now : Time) (old : State)
        → s.admin ≡ storing_broken old
        → Step s (record s {
          admin = ended;
          health = set now broken old;
          stores = s.stores ++ (now, broken) ∷ [];
        })

  pub data Reach (s : Process X) : Process X → Type 0 where
    here : Reach s s
    later : {t u : Process X} → Reach s t → Step t u → Reach s u

-- After Start.
unfoldable pub launched : {X : Type 0} → X → Process X
unfolding new
launched x = record {
  main = setting_up;
  admin = serving;
  health = new;
  pending = false;
  outside = x;
  stores = [];
  signals = 0;
  shutdowns = 0;
}
