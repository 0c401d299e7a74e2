-- ===== src/Crm/Worker.antt =====
-- The in-memory queues of backend/workers.go: `processQueuedEventsLocked`,
-- `processQueuedTaskItemsLocked` and the functions that these call. Where the limit stops a loop in
-- the middle, the source finishes the task and returns; here the rest of the loop runs with nothing
-- left to do, and the next task ends the outer loop.
use jianghu_scrm.Prelude.{
  ℕ, ◌+◌, String, Bool, Option, none, some, List, [], ◌∷◌, ◌==◌, ◌&&◌, ◌||◌, ◌<>◌, ltb, eqb, join,
  if◌then◌else◌, suc, zero,
}
use jianghu_scrm.Utils.{default_string, append_unique}
use jianghu_scrm.Models.Crm.{Customer}
use jianghu_scrm.Models.Queue.{EventEnvelope, TaskRecord, TaskItemRecord, BatchTagTaskPayload}
use jianghu_scrm.Crm.Pool.{Outside, Pool, find_customer, put_customer, audit, tick, prepend_audit}

unfoldable pub process_event : String → EventEnvelope → EventEnvelope
process_event now e = record e {
  status = "processed";
  attempts = e.attempts + 1;
  processed_at = now;
}

-- The loop over the events; `room` is limit - processed.
-- A limit of zero or less processes nothing.
unfoldable pub process_queued_events : String → ℕ → List EventEnvelope → List EventEnvelope
process_queued_events now room [] = []
process_queued_events now zero (e ∷ rest) = e ∷ rest
process_queued_events now (suc room) (e ∷ rest) =
    if e.status == "queued"
    then process_event now e ∷ process_queued_events now room rest
    else e ∷ process_queued_events now (suc room) rest

-- A task, one of its items and the customers, as the functions on pointers leave them.
pub record Work : Type 0 where
  pub task : TaskRecord
  pub item : TaskItemRecord
  pub pool : Pool

unfoldable pub fail_item : String → Work → Work
fail_item message w = record w {
  item = record w.item { status = "failed"; last_error = message };
  task = record w.task { failed_count = w.task.failed_count + 1; last_error = message };
}

-- The loop over the items of a task, with the room that is left.
pub record Run : Type 0 where
  pub task : TaskRecord
  pub items : List TaskItemRecord
  pub room : ℕ
  pub pool : Pool

unfoldable pub is_due : TaskRecord → TaskItemRecord → Bool
is_due task item = item.task_id == task.id && item.status == "queued"

unfoldable pub keep_item : TaskItemRecord → Run → Run
keep_item item r = record r { items = item ∷ r.items }

unfoldable pub done_status : TaskRecord → String
done_status task =
    if eqb task.failed_count 0
    then "completed"
    else if eqb task.success_count 0
    then "failed"
    else "partial_failed"

unfoldable pub is_finished : TaskRecord → Bool
is_finished task =
    task.status == "completed" || task.status == "failed" || task.status == "partial_failed"

-- Whether `finishTaskIfDoneLocked` returns at its first test.
unfoldable pub is_left : TaskRecord → Bool
is_left task = ltb (task.success_count + task.failed_count) task.total_count || is_finished task

unfoldable pub finish_task_if_done : String → TaskRecord → TaskRecord
unfolding done_status is_left
finish_task_if_done now task =
    if is_left task then task else record task { finished_at = now; status = done_status task }

unfoldable pub start_task : String → TaskRecord → TaskRecord
start_task now task =
    if task.status == "queued" then record task { status = "running"; started_at = now } else task

pub record Queue : Type 0 where
  pub tasks : List TaskRecord
  pub items : List TaskItemRecord
  pub room : ℕ
  pub pool : Pool

unfoldable pub keep_task : TaskRecord → Queue → Queue
keep_task task q = record q { tasks = task ∷ q.tasks }

module _ (outside : Outside) (payload_of : String → Option BatchTagTaskPayload) where
  unfoldable pub tag_customer : Work → BatchTagTaskPayload → Option Customer → Work
  tag_customer w p none = fail_item "customer not found" w
  tag_customer w p (some c) = record w {
    pool =
        put_customer
          (prepend_audit
            (audit outside w.pool "异步批量打标签" "系统标签已更新" (default_string p.operator w.task.created_by)
              ("客户：" <> c.name) (join p.tags "、"))
            (record c { tags = append_unique c.tags p.tags }))
          (tick w.pool);
    item = record w.item { status = "succeeded"; result = "{\"updated\":true}" };
    task = record w.task { success_count = w.task.success_count + 1 };
  }

  unfoldable pub tag_item : Work → Option BatchTagTaskPayload → Work
  tag_item w none = fail_item "invalid task payload" w
  tag_item w (some p) = tag_customer w p (find_customer w.item.target_id w.pool)

  unfoldable pub process_batch_tag_item : Work → Work
  process_batch_tag_item w = tag_item w (payload_of w.task.payload)

  -- the item has been tried once more
  unfoldable pub attempted : Work → Work
  attempted w = record w {
    item = record w.item {
      attempts = w.item.attempts + 1;
      updated_at = outside.times w.pool.readings;
    };
    pool = record w.pool { readings = w.pool.readings + 1 };
  }

  unfoldable pub process_task_item : Work → Work
  process_task_item w =
      if w.task.type == "batch_customer_tags"
      then process_batch_tag_item (attempted w)
      else fail_item "unsupported task type" (attempted w)

  unfoldable pub run_items : TaskRecord → List TaskItemRecord → ℕ → Pool → Run
  run_items task [] room pool = record { task = task; items = []; room = room; pool = pool }
  run_items task (item ∷ rest) zero pool = record {
    task = task;
    items = item ∷ rest;
    room = zero;
    pool = pool;
  }
  run_items task (item ∷ rest) (suc room) pool =
      if is_due task item
      then (let w = process_task_item (record { task = task; item = item; pool = pool }) in
          keep_item w.item (run_items w.task rest room w.pool))
      else keep_item item (run_items task rest (suc room) pool)

  unfoldable pub run_task : String → TaskRecord → List TaskItemRecord → ℕ → Pool → Run
  run_task now task items room pool =
      let r = run_items (start_task now task) items room pool in
      record r {
        task = finish_task_if_done (outside.times r.pool.readings) r.task;
        pool = record r.pool { readings = r.pool.readings + (if is_left r.task then 0 else 1) };
      }

  unfoldable pub run_tasks : String → List TaskRecord → List TaskItemRecord → ℕ → Pool → Queue
  run_tasks now [] items room pool = record { tasks = []; items = items; room = room; pool = pool }
  run_tasks now (task ∷ rest) items zero pool = record {
    tasks = task ∷ rest;
    items = items;
    room = zero;
    pool = pool;
  }
  run_tasks now (task ∷ rest) items (suc room) pool =
      if task.status == "queued" || task.status == "running"
      then (let r = run_task now task items (suc room) pool in
          keep_task r.task (run_tasks now rest r.items r.room r.pool))
      else keep_task task (run_tasks now rest items (suc room) pool)

  unfoldable pub process_queued_task_items :
      ℕ → List TaskRecord → List TaskItemRecord → Pool → Queue
  process_queued_task_items limit tasks items pool =
      run_tasks (outside.times pool.readings) tasks items limit
        (record pool { readings = pool.readings + 1 })
