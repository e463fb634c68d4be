-- ===== src/ConfigMap.antt =====
-- internal/controller/typesensecluster_configmap.go: the config map with the list of raft nodes.
-- `Nodes` computes the list, `Endpoints` reads the endpoint slices behind it.
pub mod Nodes
pub mod Endpoints
pub mod Update
pub mod Force
pub mod RoundTrip
