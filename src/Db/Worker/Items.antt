-- ===== src/Db/Worker/Items.antt =====
-- The rows that the worker on the database writes: the events of the inbox, and what a try makes of
-- an item and its task (backend/workers.go).
use jianghu_scrm.Prelude.{
  ℕ, String, ◌+◌, if◌then◌else◌, List, stable_sort, Option, ◌==◌, eqb, Bool, leb, insert, some, map,
  ◌&&◌, none, ltb, take,
}
use jianghu_scrm.Db.Tables.{update_where, coalesce, DbTask, DbEvent, DbTaskItem, Database}
use jianghu_scrm.Utils.{filter, contains}

-- An item that the worker selected, with the columns of its task.
pub record QueuedItem : Type 0 where
  pub id : String
  pub task_id : String
  pub target_id : String
  pub task_type : String
  pub payload : String
  pub created_by : String

unfoldable pub is_due_event : ℕ → DbEvent → Bool
is_due_event now e = e.status == "queued" && leb e.next_attempt_at now

unfoldable pub process_db_event : ℕ → DbEvent → DbEvent
process_db_event now e = record e {
  status = "processed";
  attempts = e.attempts + 1;
  processed_at = some now;
}

-- the ids that the statement picks: the first due ones by the time of receipt
unfoldable pub picked_events : ℕ → ℕ → List DbEvent → List String
unfolding filter is_due_event stable_sort insert
picked_events now batch_size events =
    map (λ e. e.id)
      (take batch_size
        (stable_sort (λ a b. ltb a.received_at b.received_at) (filter (is_due_event now) events)))

unfoldable pub process_queued_db_events : ℕ → ℕ → Database → Database
unfolding picked_events update_where process_db_event contains
process_queued_db_events now batch_size db = record db {
  event_inbox =
      update_where (λ e. contains (picked_events now batch_size db.event_inbox) e.id)
        (process_db_event now) db.event_inbox;
}

-- The outcome of one try: none of the errors, a retry, or the last try of all.
pub data Outcome : Type 0 where
  succeeded : Outcome
  retried dead : String → Outcome

unfoldable pub outcome_of : ℕ → ℕ → Option String → Outcome
outcome_of attempts max_attempts none = succeeded
outcome_of attempts max_attempts (some message) =
    if leb max_attempts attempts then dead message else retried message

unfoldable pub is_claimable : String → DbTaskItem → Bool
is_claimable id i = i.id == id && i.status == "queued"

unfoldable pub claim_item : ℕ → DbTaskItem → DbTaskItem
claim_item now i = record i { status = "running"; attempts = i.attempts + 1; updated_at = now }

unfoldable pub settle_item : ℕ → ℕ → Outcome → DbTaskItem → DbTaskItem
settle_item now delay succeeded i = record i {
  status = "succeeded";
  result = "{\"updated\": true}";
  updated_at = now;
}
settle_item now delay (retried message) i = record i {
  status = "queued";
  last_error = message;
  next_attempt_at = now + delay;
  updated_at = now;
}
settle_item now delay (dead message) i = record i {
  status = "dead_letter";
  last_error = message;
  updated_at = now;
}

unfoldable pub start_db_task : ℕ → DbTask → DbTask
unfolding coalesce
start_db_task now t =
    if t.status == "queued"
    then record t { status = "running"; started_at = coalesce t.started_at now }
    else t

unfoldable pub count_outcome : Outcome → DbTask → DbTask
count_outcome succeeded t = record t { success_count = t.success_count + 1 }
count_outcome (retried message) t = t
count_outcome (dead message) t = record t {
  failed_count = t.failed_count + 1;
  last_error = message;
}

unfoldable pub db_done_status : DbTask → String
db_done_status t =
    if eqb t.failed_count 0
    then "completed"
    else if eqb t.success_count 0
    then "failed"
    else "partial_failed"

unfoldable pub finish_db_task : ℕ → DbTask → DbTask
unfolding db_done_status coalesce
finish_db_task now t =
    if leb t.total_count (t.success_count + t.failed_count)
    then record t { status = db_done_status t; finished_at = coalesce t.finished_at now }
    else t

-- the rows of the items and of the tasks, as the statements of one try leave them
unfoldable pub items_after : ℕ → ℕ → String → Outcome → List DbTaskItem → List DbTaskItem
unfolding update_where is_claimable claim_item settle_item
items_after now delay id outcome items =
    update_where (λ i. i.id == id) (settle_item now delay outcome)
      (update_where (is_claimable id) (claim_item now) items)

unfoldable pub tasks_after : ℕ → String → Outcome → List DbTask → List DbTask
unfolding update_where start_db_task count_outcome finish_db_task
tasks_after now id outcome tasks =
    update_where (λ t. t.id == id) (finish_db_task now)
      (update_where (λ t. t.id == id) (count_outcome outcome)
        (update_where (λ t. t.id == id) (start_db_task now) tasks))
