-- ===== src/Ops.antt =====
-- The operations centre: backend/customer_ops.go, in its in-memory mode.
pub mod State
pub mod Find
pub mod Ensures
pub mod Journal
pub mod Tasks
pub mod Stage
pub mod Exceptions
pub mod TaskStatus
pub mod Followups
pub mod Tags
pub mod Access
pub mod Views
pub mod Http
pub mod Handlers
pub mod Serve
pub mod History
pub mod Refresh
pub mod Resolve
pub mod TagLinks
pub mod Revisit
pub mod Scope
pub mod DataScope
pub mod DataScopeRows
