-- ===== src/Db.antt =====
-- The mode with a database: its tables as lists of rows, and the statements of a transaction as
-- functions on them. A failure of the database itself is not modelled; a transaction is one step.
pub mod Tables
pub mod Worker
pub mod Rows
pub mod Books
pub mod Rounds
pub mod Tries
pub mod Inbox
pub mod InboxRefines
pub mod Handover
pub mod HandoverOwner
pub mod HandoverSubmit
pub mod Guides
pub mod GuideActions
pub mod GuidesGone
pub mod GuidesRemoved
