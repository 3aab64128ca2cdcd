-- ===== src/Traffic.antt =====
-- src/traffic: the token buckets and the streams that they throttle.
pub mod Limiter
pub mod Registry
pub mod Bandwidth
mod Tests
