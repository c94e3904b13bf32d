-- ===== src/Hostnet.antt =====
-- internal/hostnet/manager.go: changes to the host's bridges, guarded by a rollback.
pub mod Change
pub mod Pending
