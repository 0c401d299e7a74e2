-- ===== src/Crm.antt =====
-- The customer pool and the queue in memory: backend/customer_actions.go and batch_tags.go, and the queues of
-- backend/workers.go and backend/events_tasks.go where no database is there.
pub mod Pool
pub mod Actions
pub mod Relations
pub mod Worker
pub mod Tasks
pub mod Books
pub mod Rounds
pub mod Finish
pub mod Ledger
pub mod Liveness
pub mod Progress
pub mod Inbox
pub mod Batch
pub mod Handover
pub mod HandoverLaws
pub mod Guides
pub mod GuidesAgree
pub mod GuidesModes
