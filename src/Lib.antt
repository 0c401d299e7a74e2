-- ===== src/Lib.antt =====
-- The back end of a private-domain customer system (backend/, Go): an HTTP server over customers of
-- stores, the guides who look after them, and the operations centre that follows them up. It runs
-- over a database or, without one, over slices in memory behind one lock. This library models the
-- memory mode, helpers that both modes share, what stands in front of the handlers, and of the
-- database mode the worker, the event inbox, the handover and the guides.
--
-- Which file models which part:
--   Models/          the structs of backend/models.go that the other parts use
--   Utils, Utils/    backend/utils.go: text and list helpers, query parameters and pages
--   Ops/             backend/customer_ops.go, the operations centre: State (the ops fields of `API`
--                    and the state monad), Find (searches and writes through pointers), Journal
--                    (task logs, timeline), Tasks, Stage, TaskStatus, Followups, Tags, Exceptions
--                    (one file for each group of `...Locked` functions), Access (`canAccessOps...`),
--                    Views (`scopedOps...`, the detail of a customer), Http (bodies and replies),
--                    Handlers/ (the handlers) and Serve (a list of requests)
--   Ops/Ensures, Ops/History/, Ops/Refresh/, Ops/Resolve, Ops/Revisit, Ops/TagLinks, Ops/Scope
--                    proofs about the operations centre
--   Crm/             Pool and Actions: backend/customer_actions.go; Worker: the memory queues of
--                    backend/workers.go; Tasks: their creation (backend/batch_tags.go) and their
--                    handlers (backend/events_tasks.go); Inbox: the event inbox of
--                    backend/events_tasks.go; Batch: the tagging of backend/batch_tags.go;
--                    Handover and Guides: the memory mode of backend/handover.go and
--                    backend/guides.go; Relations, Progress, Books, Rounds, Finish, Ledger,
--                    Liveness, HandoverLaws, GuidesAgree, GuidesModes: proofs
--   Db/              Tables: the rows of the tables; Worker/: the database queue of
--                    backend/workers.go; Inbox: the event inbox on the database; Handover/:
--                    backend/handover.go; Guides, GuideActions: the rows of guides and their
--                    handlers in backend/guides.go; Rows, Books, Rounds, Tries, InboxRefines,
--                    HandoverOwner, HandoverSubmit, GuidesGone, GuidesRemoved: proofs
--   Ops/DataScope    backend/customer_ops_permissions.go: the conditions of database queries;
--                    DataScopeRows: proofs about the rows that they select
--   Server/          Cache: the local response cache of backend/middleware_cache_metrics.go; there
--                    too Limiter: the rate limiter, Metrics: the counts of each endpoint, Gate: the
--                    middleware; CacheLaws, CacheReads, LimiterLaws, GateLaws: proofs
--   Wecom/           State: the state text of a contact way; Rotation: the switch of a contact way to
--                    the next guide (both backend/wecom_contact_way_rotation.go)
--   Tests/           concrete data and runs
--
-- How the code is translated. A function that ends in `Locked` is a function on the state with the
-- name in snake case; a pointer to an element is the value of the element and a write to the first
-- element with its ID, since no function changes an ID. The lock makes each request one step, so a
-- run is a list of requests (`serve`). Random identifiers and the clock are functions of how many
-- were taken (`World`, `Outside`); the JSON decoder, `strconv.Atoi`, `strconv.Itoa`,
-- `strings.ToLower` and `strings.Contains` are arguments, and so is the position of the entry that a
-- full cache gives up; so are, of the database, the order of texts, `to_char` and CURRENT_DATE.
-- Counts are natural numbers; page numbers are 64-bit integers, whose products are taken modulo
-- 2^64. The tokens of the rate limiter are float64: their rounded operations are arguments
-- (`Float64`), and the bounds name how far rounding may go. No definition runs on fuel: every loop is
-- a recursion on the rows that it walks.
--
-- On the database a table is a list of rows, a statement a function on it with the WHERE of the
-- source, and a transaction one step, which an error rolls back; `now()` is an argument, and so is what
-- becomes of a text that is stored as jsonb. Unique keys are those of backend/migrations. Several
-- workers are modelled as tries in any order and at any times (Db/Tries): the UPDATE that claims an
-- item makes each try one step.
--
-- Not modelled: a failure of the database itself; the parts of the database mode that are not named
-- above (lists and views that only read, the operations centre's repository), since they are SQL
-- text; the calls of remote services; the front end; seed data and the keyword filters of lists.
pub mod Prelude
pub mod Models
pub mod Utils
pub mod Ops
pub mod Crm
pub mod Db
pub mod Server
pub mod Wecom
pub mod Tests
