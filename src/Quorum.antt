-- ===== src/Quorum.antt =====
-- internal/controller/typesensecluster_quorum.go and typesensecluster_quorum_helpers.go: the health
-- of the raft quorum and its recovery.
pub mod Cluster
pub mod Probe
pub mod Lag
pub mod Members
pub mod Gate
pub mod Resize
pub mod Reconcile
