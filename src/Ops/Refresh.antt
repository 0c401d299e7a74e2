-- ===== src/Ops/Refresh.antt =====
-- Proofs about the refresh of the operation exceptions (`refreshOpsExceptionsLocked`).
pub mod Cover
pub mod Loop
pub mod Again
pub mod Once
