-- ===== src/Ops/Handlers.antt =====
-- The HTTP handlers of customer_ops.go, with no database configured. A handler runs under the
-- API's lock, so it is one step on the state.
pub mod Customer
pub mod Task
pub mod Material
pub mod Exception
