-- ===== src/Sync.antt =====
-- scaleway/sync.go: the labels and the taints that the tags of servers and load balancers give to
-- nodes and services.
pub mod Tags
pub mod Labels
pub mod Controller
pub mod Queue
pub mod Run
