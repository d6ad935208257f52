-- ===== src/Service/Tests.antt =====
-- A service that becomes ready at the time 5, and gets two signals before it stops.
use iamzero.Prelude.{ℕ, suc, ◌≤◌, ◌≡◌, refl, false, some, [], ◌∷◌}
use iamzero.Prelude.Outcome.{ok, err, plain, wrap}
use iamzero.Prelude.Digits.{decimal}
use iamzero.Health.{ready, set, new}
use iamzero.Service.{
  port_to_host_port, start, stopped, serving, Process, signal, set_ready, store, interrupt,
  shut_down, Reach, here, later, launched,
}
use iamzero.Service.Answers.{NoStatus, Answers, health_while_serving}
use iamzero.Service.Shutdown.{runs, left, shutdown_once}

abbrev stopping : Process ℕ
stopping = record {
  main = stopped;
  admin = serving;
  health = record { status = ready; up_since = 5 };
  pending = false;
  outside = 8;
  stores = (5, ready) ∷ [];
  signals = 2;
  shutdowns = 1;
}

stopping-reached : Reach (some suc) (NoStatus (some suc)) (launched 7) stopping
unfolding launched set new
stopping-reached =
    later
      (later
        (later (later (later (later here signal) (set_ready refl)) (store 5 ready _ refl)) signal)
        (interrupt refl refl))
      (shut_down refl)

answers_example : Answers (some suc) stopping.main stopping.health stopping.stores 9
answers_example = health_while_serving (some suc) 7 stopping stopping-reached refl 9

shutdown_example :
    (stopping.shutdowns ≡ runs stopping.main)
    × (stopping.outside ≡ left (some suc) (NoStatus (some suc)) 7 stopping.main)
    × (stopping.shutdowns ≤ stopping.signals)
shutdown_example = shutdown_once (some suc) (NoStatus (some suc)) 7 stopping stopping-reached

port_example : port_to_host_port 10866 ≡ ":10866"
unfolding port_to_host_port decimal
port_example = refl

-- The address is in use.
listen_example :
    start {Level = Unit {0}} {Logger = Unit {0}} {Listener = Unit {0}}
      (λ t. ok tt)
      (λ l. ok tt)
      (λ a. err (plain "address already in use"))
      "info"
      10866
    ≡ err (wrap "starting admin server" (plain "address already in use"))
unfolding start port_to_host_port decimal
listen_example = refl
