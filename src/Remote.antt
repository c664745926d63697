-- ===== src/Remote.antt =====
-- src/rvln_remote/rvln_remote: the inference node and its backends.
pub mod Backend
pub mod Inference
pub mod Navida
pub mod OmniEdge
