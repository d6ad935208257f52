-- ===== src/Collector/Start.antt =====
-- Start of cmd/collector/app/collector.go, up to the servers: what it has the auditor do.  `uuid`
-- gives the identifiers of the links from the one of number `drawn` on, and `new_sqs_server` is what
-- NewSQSServer returns.
use iamzero.Prelude.{ℕ, String, Bool, true, false}
use iamzero.Prelude.Outcome.{Outcome, ok, err, panic, Exec, ◌>>◌, pure, lift}
use iamzero.Audit.{Auditor, build_links}
use iamzero.Audit.Fixture.{load_fixture}
use iamzero.Audit.Loading.{Outside, load_cloud_formation_stacks}

pub record Transport : Type 0 where
  pub cdk : Bool
  pub transport_sqs_enabled : Bool

module _ (outside : Outside) (uuid : ℕ → String) (drawn : ℕ)
    (new_sqs_server : Outcome (Unit {0})) where
  load_stacks : Bool → Exec Auditor (Unit {0})
  unfolding load_cloud_formation_stacks
  load_stacks true = load_cloud_formation_stacks outside
  load_stacks false = pure tt

  add_fixture : Exec Auditor (Unit {0})
  unfolding load_fixture
  add_fixture a = (ok tt, load_fixture a)

  set_links : Outcome (Auditor × ℕ) → Exec Auditor (Unit {0})
  set_links (ok r) a = (ok tt, r.0)
  set_links (err e) a = (err e, a)
  set_links (panic p) a = (panic p, a)

  link_roles : Exec Auditor (Unit {0})
  unfolding build_links set_links
  link_roles a = set_links (build_links uuid drawn a) a

  start_sqs : Bool → Exec Auditor (Unit {0})
  start_sqs true = lift new_sqs_server
  start_sqs false = pure tt

  unfoldable pub start_collector : Transport → Exec Auditor (Unit {0})
  unfolding load_stacks add_fixture link_roles start_sqs
  start_collector c =
      load_stacks c.cdk >> add_fixture >> link_roles >> start_sqs c.transport_sqs_enabled
