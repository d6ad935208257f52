-- ===== src/Commands.antt =====
-- cmd/cli/commands: the command `iamzero local`.  The other commands are in Applier.Command and
-- Cloudtrail.Scan.
pub mod Local
