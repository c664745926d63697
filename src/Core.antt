-- ===== src/Core.antt =====
-- src/rvln_core/rvln_core: the compute core that the edge and the remote share.
pub mod Engine
