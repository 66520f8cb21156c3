-- ===== src/Scaleway.antt =====
-- The Scaleway SDK as the source uses it: resources, conversions and the API as a service.
pub mod Slices
pub mod Packages
pub mod LoadBalancer
pub mod Api
