-- ===== src/Crm/Tasks.antt =====
-- Tasks in memory: their creation (`enqueueBatchTags` and `enqueueBatchTagTaskLocked` of
-- backend/batch_tags_payload.go), the handlers of tasks (`tasksHandler`, `taskActionHandler`, `findTask` of
-- backend/events_tasks.go) and a round of the worker (`processQueuedWork` of backend/workers.go).
-- The limit of a round is positive there: `runWorkers` turns one that is not into 20.
use jianghu_scrm.Utils.{filter, default_string, match_option}
use jianghu_scrm.Prelude.{
  List, String, Bool, Option, ℕ, ◌==◌, ◌∷◌, true, find, ◌&&◌, some, if◌then◌else◌, ◌<>◌, false,
  ◌++◌, [], ◌+◌, none, length,
}
use jianghu_scrm.Crm.Pool.{Outside, Pool}
use jianghu_scrm.Models.Queue.{TaskRecord, TaskItemRecord, BatchTagTaskPayload, EventEnvelope}
use jianghu_scrm.Ops.Http.{Reply, err_bad_request, ok, err_not_found, is_post}
use jianghu_scrm.Crm.Worker.{Queue, process_queued_events, process_queued_task_items}
use jianghu_scrm.Ops.Access.{Method}

-- The fields of `API` that these functions share; the pool counts what was drawn and read.
pub record Board : Type 0 where
  pub events : List EventEnvelope
  pub tasks : List TaskRecord
  pub items : List TaskItemRecord
  pub pool : Pool

unfoldable pub find_task : String → List TaskRecord → Option TaskRecord
find_task id tasks = find (λ t. t.id == id) tasks

unfoldable pub items_of : String → List TaskItemRecord → List TaskItemRecord
unfolding filter
items_of id items = filter (λ i. i.task_id == id) items

-- The body of a POST to the tasks.
pub record TaskPayload : Type 0 where
  pub type : String
  pub batch_tags_payload : BatchTagTaskPayload

-- What a GET of a task shows.
pub data TaskView : Type 0 where
  whole : TaskRecord → List TaskItemRecord → TaskView
  only_items : List TaskItemRecord → TaskView

-- What one task's path asks for.
unfoldable pub view_task : List String → List TaskItemRecord → Option TaskRecord → Reply TaskView
unfolding items_of
view_task rest items none = err_not_found
view_task [] items (some task) = ok (whole task (items_of task.id items))
view_task (part ∷ []) items (some task) =
    if part == "items" then ok (only_items (items_of task.id items)) else err_not_found
view_task (_ ∷ _ ∷ _) items (some task) = err_not_found

-- The parts of the path behind /api/tasks/.
unfoldable pub task_action_handler : List String → Board → Reply TaskView
task_action_handler [] b = err_not_found
task_action_handler (id ∷ rest) b = view_task rest b.items (find_task id b.tasks)

-- The rows that the list of tasks shows.
module _ (text_contains : String → String → Bool) where
  unfoldable pub listed_tasks : String → String → List TaskRecord → List TaskRecord
  unfolding filter match_option
  listed_tasks status type tasks =
      filter
        (λ t.
          match_option text_contains status "全部状态" t.status
          && match_option text_contains type "全部类型" t.type)
        tasks

  unfoldable pub listed_events : String → String → String → List EventEnvelope → List EventEnvelope
  unfolding filter match_option
  listed_events status source type events =
      filter
        (λ e.
          match_option text_contains status "全部状态" e.status
          && match_option text_contains source "全部来源" e.source
          && match_option text_contains type "全部类型" e.type)
        events

-- `json.Marshal` of a payload, which has no error for texts, is an argument.
module _ (outside : Outside) (marshal : BatchTagTaskPayload → String) where
  -- the loop over the customers of a task, with the number of identifiers drawn before it
  unfoldable pub new_items : String → String → ℕ → List String → List TaskItemRecord
  new_items task_id now drawn [] = []
  new_items task_id now drawn (id ∷ ids) =
      record {
        id = "item" <> outside.suffix drawn;
        task_id = task_id;
        target_id = id;
        status = "queued";
        attempts = 0;
        result = "{}";
        last_error = "";
        updated_at = now;
      }
      ∷ new_items task_id now (drawn + 1) ids

  unfoldable pub new_task : BatchTagTaskPayload → Pool → TaskRecord
  new_task p pool = record {
    id = "task" <> outside.suffix pool.drawn;
    type = "batch_customer_tags";
    status = "queued";
    total_count = length p.customer_i_ds;
    success_count = 0;
    failed_count = 0;
    payload = marshal p;
    created_by = p.operator;
    created_at = outside.times pool.readings;
    started_at = "";
    finished_at = "";
    last_error = "";
  }

  unfoldable pub enqueue_batch_tag_task : BatchTagTaskPayload → Board → TaskRecord × Board
  enqueue_batch_tag_task p b =
      let task = new_task p b.pool in
      (
        task,
        record b {
          tasks = task ∷ b.tasks;
          items =
              b.items
              ++ new_items task.id (outside.times b.pool.readings) (b.pool.drawn + 1)
                  p.customer_i_ds;
          pool = record b.pool {
            drawn = b.pool.drawn + 1 + length p.customer_i_ds;
            readings = b.pool.readings + 1;
          };
        },
      )

  unfoldable pub accepted : TaskRecord × Board → Reply TaskRecord × Board
  accepted (task, b) = (ok task, b)

  abbrev pub is_empty : List String → Bool
  is_empty [] = true
  is_empty (_ ∷ _) = false

  unfoldable pub enqueue_decoded : Option BatchTagTaskPayload → Board → Reply TaskRecord × Board
  unfolding accepted default_string
  enqueue_decoded none b = (err_bad_request "invalid body", b)
  enqueue_decoded (some p) b =
      if is_empty p.customer_i_ds
      then (err_bad_request "customerIds is required", b)
      else if is_empty p.tags
      then (err_bad_request "tags is required", b)
      else accepted
          (enqueue_batch_tag_task (record p { operator = default_string p.operator "运营" }) b)

  unfoldable pub enqueue_batch_tags :
      Method → Option BatchTagTaskPayload → Board → Reply TaskRecord × Board
  enqueue_batch_tags method body b =
      if is_post method then enqueue_decoded body b else (err_not_found, b)

  -- The POST of `tasksHandler`, which checks neither the customers nor the tags.
  unfoldable pub post_task : Option TaskPayload → Board → Reply TaskRecord × Board
  unfolding accepted
  post_task none b = (err_bad_request "invalid body", b)
  post_task (some p) b =
      if p.type == "batch_customer_tags"
      then accepted (enqueue_batch_tag_task p.batch_tags_payload b)
      else (err_bad_request "unsupported task type", b)

module _ (outside : Outside) (payload_of : String → Option BatchTagTaskPayload) where
  unfoldable pub settled : Board → Queue → Board
  settled b q = record b { tasks = q.tasks; items = q.items; pool = q.pool }

  -- One round of the worker: the events, then the items.
  unfoldable pub process_queued_work : ℕ → Board → Board
  unfolding settled
  process_queued_work limit b =
      settled
        (record b { events = process_queued_events (outside.times b.pool.readings) limit b.events })
        (process_queued_task_items outside payload_of limit b.tasks b.items
          (record b.pool { readings = b.pool.readings + 1 }))
