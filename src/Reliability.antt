-- ===== src/Reliability.antt =====
-- pkg/reliability: the circuit breaker and the retry loop.
pub mod Breaker
pub mod Retry
pub mod Examples
