-- ===== src/Interceptor.antt =====
-- sidecar/src/interceptor.rs, by its stages.
pub mod Tests
pub mod Extract
pub mod Policy
pub mod Forward
pub mod Handler
pub mod Contention
pub mod Traffic
