-- ===== src/Annotations.antt =====
-- The readers of a service's annotations.
pub mod Keys
pub mod Ports
pub mod Values
pub mod Network
pub mod Proxy
pub mod Health
