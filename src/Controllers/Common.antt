-- ===== src/Controllers/Common.antt =====
-- controllers/dbaas_reconciler.go: what the reconcilers share.
pub mod Access
pub mod Check
pub mod Provider
pub mod Merge
