-- ===== src/Tests.antt =====
-- Concrete runs of the model, one for each result.
mod Samples
mod Ops
mod Crm
mod Utils
mod Server
pub mod Queue
pub mod Gate
pub mod Db
pub mod Guides
pub mod Handover
pub mod Scopes
