-- ===== src/Health/Tests.antt =====
-- A health check that is told twice that it is ready, and one that is broken.
use iamzero.Prelude.{◌≡◌, refl}
use iamzero.Prelude.Outcome.{panic, status_code}
use iamzero.Health.{ready, broken, new, set, handle}

ready_twice : set 3 ready (set 2 ready new) ≡ record { status = ready; up_since = 0 }
unfolding set new
ready_twice = refl

broken_panics : handle 3 (set 2 broken new) ≡ panic status_code
unfolding handle set new
broken_panics = refl
