-- ===== src/LoadBalancers.antt =====
-- scaleway/loadbalancers.go and scaleway/acl.go.
pub mod Nodes
pub mod Convert
pub mod Equality
pub mod Compare
pub mod Controller
pub mod Lifecycle
pub mod Acls
pub mod Networks
pub mod Requests
pub mod Update
pub mod Status
pub mod Ensure
pub mod Phases
pub mod Effects
pub mod Managed
