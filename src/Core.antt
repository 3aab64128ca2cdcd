-- ===== src/Core.antt =====
-- src/core: the balancer and the health checker.
pub mod Balancer
pub mod Health
