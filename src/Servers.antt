-- ===== src/Servers.antt =====
-- scaleway/servers.go, scaleway/instances.go, scaleway/baremetal.go and scaleway/zones.go: the
-- nodes as servers of the cloud. The two APIs are read only, and are taken as functions of the
-- request.
pub mod ProviderId
pub mod Search
pub mod Interface
pub mod Instances
pub mod Baremetal
pub mod Dispatch
