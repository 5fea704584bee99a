-- ===== src/Gateway/Calls/Audited.antt =====
-- crates/fineco-gateway/src/lib.rs: the journal tells what the client received, and the policy comes
-- before the workers.
use fineco_helper.Ipc.Capability.{Capability}
use fineco_helper.Ipc.Request.{Request}
