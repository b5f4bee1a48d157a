-- ===== src/ControlPlane.antt =====
-- control-plane/src: the service beside the pod registry. Its configuration, the eviction engine
-- and the administration API.
pub mod Config
pub mod Eviction
pub mod Admin
pub mod Background
mod Tests
