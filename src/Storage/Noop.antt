-- ===== src/Storage/Noop.antt =====
-- pkg/storage/event_noop.go: an event storage that keeps nothing.
use iamzero.Prelude.{none, []}
use iamzero.Prelude.Outcome.{pure}
use iamzero.Storage.{EventStorage}

abbrev pub no_op_event_storage : {S : Type 0} → EventStorage S
no_op_event_storage = record {
  list_for_finding = λ id. pure [];
  get = λ id. pure none;
  create = λ e. pure tt;
}
