-- ===== src/Runtime.antt =====
-- pkg/runtime: the capability gate of gate.go.
pub mod FilePath
pub mod Gate
