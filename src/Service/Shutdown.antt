-- ===== src/Service/Shutdown.antt =====
-- How often shutdown runs, and what it leaves.
use iamzero.Prelude.{ℕ, suc, ◌≤◌, ◌≡◌, refl, ap, Bool, true, false, Option, arith}
use iamzero.Health.{Status}
use iamzero.Service.{
  Main, setting_up, storing, looping, interrupted, stopped, Process, Step, signal, set_ready,
  set_status, store, interrupt, shut_down, close, serve_fails, set_broken, store_broken, Reach,
  here, later, launched, shut_down_by,
}

-- The runs of shutdown, and whether the loop has received a signal.
abbrev pub runs : Main → ℕ
runs stopped = 1
runs _ = 0

abbrev received : Main → Bool
received interrupted = true
received stopped = true
received _ = false

module _ {X : Type 0} (shutdown : Option (X → X)) (sent : Status → Type 0) (x : X) where
  -- What shutdown has to work on, and what it leaves.
  abbrev pub left : Main → X
  left stopped = shut_down_by shutdown x
  left _ = x

  abbrev Counted : Process X → Type 0
  Counted s =
      (s.shutdowns ≡ runs s.main)
      × (s.outside ≡ left s.main)
      × (s.pending ≡ true → 1 ≤ s.signals)
      × (received s.main ≡ true → 1 ≤ s.signals)

  Step-Counted : (s t : Process X) → Step shutdown sent s t → Counted s → Counted t
  Step-Counted s t signal (a, b, c, d) = (a, b, λ q. omega arith, λ q. omega arith)
  Step-Counted s t (set_ready e) (a, b, c, d) = (rw e at a, rw e at b, c, λ q. cc)
  Step-Counted s t (set_status y n e) (a, b, c, d) = (rw e at a, rw e at b, c, λ q. cc)
  Step-Counted s t (store now y old e) (a, b, c, d) = (rw e at a, rw e at b, c, λ q. cc)
  Step-Counted s t (interrupt e p) (a, b, c, d) = (rw e at a, rw e at b, λ q. cc, λ q. c p)
  Step-Counted s t (shut_down e) (a, b, c, d) =
      let none_yet = rw e at a in
      let untouched = rw e at b in
      (ap suc none_yet, ap (shut_down_by shutdown) untouched, c, λ q. rw e at d refl)
  Step-Counted s t (close e) h = h
  Step-Counted s t (serve_fails e) h = h
  Step-Counted s t (set_broken e) h = h
  Step-Counted s t (store_broken now old e) h = h

  Reach-Counted : (s : Process X) → Reach shutdown sent (launched x) s → Counted s
  unfolding launched
  Reach-Counted s here = (refl, refl, λ q. cc, λ q. cc)
  Reach-Counted s (later {t} r st) = Step-Counted t s st (Reach-Counted t r)

  runs-signals : (m : Main) (n : ℕ) → (received m ≡ true → 1 ≤ n) → runs m ≤ n
  runs-signals setting_up n h = omega arith
  runs-signals (storing y old) n h = omega arith
  runs-signals looping n h = omega arith
  runs-signals interrupted n h = omega arith
  runs-signals stopped n h = h refl

  -- Whatever is sent on hcStatusChannel, and however the signals and the admin server interleave with
  -- RunAndThen: shutdown has been run once where RunAndThen has come to its end, and not before; what
  -- it works on is as it was until then; and no run is without a signal.
  pub shutdown_once :
      (s : Process X)
      → Reach shutdown sent (launched x) s
      → (s.shutdowns ≡ runs s.main) × (s.outside ≡ left s.main) × (s.shutdowns ≤ s.signals)
  shutdown_once s r =
      let (a, b, c, d) = Reach-Counted s r in (a, b, rw a (runs-signals s.main s.signals d))
