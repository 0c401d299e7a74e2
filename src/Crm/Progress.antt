-- ===== src/Crm/Progress.antt =====
-- What a round of the worker in memory counts.
use jianghu_scrm.Prelude.{
  ℕ, ◌+◌, ◌-◌, ◌≤◌, String, Bool, true, false, Option, none, some, List, [], ◌∷◌, ◌≡◌, refl, ◌==◌,
  ◌||◌, count, arith, inl, inr, Bool-cases, suc, zero, eq_iff,
}
use jianghu_scrm.Models.Crm.{Customer}
use jianghu_scrm.Models.Queue.{EventEnvelope, TaskRecord, TaskItemRecord, BatchTagTaskPayload}
use jianghu_scrm.Crm.Pool.{Outside, Pool}
use jianghu_scrm.Crm.Worker.{
  process_event, process_queued_events, Work, fail_item, tag_customer, tag_item,
  process_batch_tag_item, attempted, process_task_item, Run, run_items, is_due, keep_item,
  start_task, finish_task_if_done, run_task, Queue, keep_task, run_tasks, process_queued_task_items,
}

unfoldable pub has_status : String → EventEnvelope → Bool
has_status status e = e.status == status

not_both : (status : String) → (status == "queued") ≡ true → (status == "processed") ≡ false
not_both status q = rw ((eq_iff status "queued").0 q)

-- A round of the worker takes as many queued events as there are, up to the limit, and each of them
-- counts as processed after it.
pub process_queued_events-count :
    (now : String) (limit : ℕ) (events : List EventEnvelope)
    → (count (has_status "queued") (process_queued_events now limit events)
        ≡ count (has_status "queued") events - limit)
      × (count (has_status "processed") (process_queued_events now limit events)
            + count (has_status "queued") (process_queued_events now limit events)
          ≡ count (has_status "processed") events + count (has_status "queued") events)
unfolding process_queued_events process_event count has_status
process_queued_events-count now limit [] = (omega arith, omega arith)
process_queued_events-count now zero (e ∷ rest) = (omega arith, omega arith)
process_queued_events-count now (suc room) (e ∷ rest) = elim (Bool-cases (e.status == "queued")) [
  | inl q ↦
      let rest' = process_queued_events-count now room rest in
      rw q (ground (arith, rest'.0), ground (arith, rest'.1, not_both e.status q))
  | inr q ↦
      let rest' = process_queued_events-count now (suc room) rest in
      rw q (ground (arith, rest'.0), ground (arith, rest'.1))
]

-- how many items of a task are counted, and the sum over tasks
unfoldable pub done : TaskRecord → ℕ
done task = task.success_count + task.failed_count

unfoldable pub done_all : List TaskRecord → ℕ
done_all [] = 0
done_all (task ∷ tasks) = done task + done_all tasks

unfoldable pub is_queued : TaskItemRecord → Bool
is_queued item = item.status == "queued"

-- what the processing of one item does
pub record Counted (v w : Work) : Type 0 where
  pub once : done w.task ≡ done v.task + 1
  pub gone : is_queued w.item ≡ false

failed-Counted : (message : String) (w : Work) → Counted w (fail_item message w)
unfolding fail_item done is_queued
failed-Counted message w = record { once = omega arith; gone = refl }

module _ (outside : Outside) (payload_of : String → Option BatchTagTaskPayload) where
  tagged-Counted :
      (w : Work) (p : BatchTagTaskPayload) (o : Option Customer)
      → Counted w (tag_customer outside payload_of w p o)
  unfolding tag_customer done is_queued
  tagged-Counted w p none = failed-Counted _ w
  tagged-Counted w p (some c) = record { once = omega arith; gone = refl }

  tag_item-Counted :
      (w : Work) (o : Option BatchTagTaskPayload) → Counted w (tag_item outside payload_of w o)
  unfolding tag_item
  tag_item-Counted w none = failed-Counted _ w
  tag_item-Counted w (some p) = tagged-Counted w p _

  attempted_first : (w v : Work) → Counted (attempted outside payload_of w) v → Counted w v
  unfolding attempted
  attempted_first w v h = record { once = h.once; gone = h.gone }

  pub process_task_item-Counted : (w : Work) → Counted w (process_task_item outside payload_of w)
  unfolding process_task_item process_batch_tag_item
  process_task_item-Counted w = elim (Bool-cases (w.task.type == "batch_customer_tags")) [
    | inl e ↦ rw e (attempted_first w _ (tag_item-Counted _ _))
    | inr e ↦ rw e (attempted_first w _ (failed-Counted _ _))
  ]

  -- The items that left the queue are the ones counted, and the room that was used.
  pub record Balance (task : TaskRecord) (items : List TaskItemRecord) (room : ℕ) (r : Run)
      : Type 0 where
    pub counted : done r.task + count is_queued r.items ≡ done task + count is_queued items
    pub used : r.room + count is_queued items ≡ room + count is_queued r.items

  passed :
      {task : TaskRecord} {rest : List TaskItemRecord} {room : ℕ} {r : Run} (item : TaskItemRecord)
      → Balance task rest room r
      → Balance task (item ∷ rest) room (keep_item item r)
  unfolding keep_item count
  passed item b = record { counted = omega (arith, b.counted); used = omega (arith, b.used) }

  abbrev processed : TaskRecord → TaskItemRecord → Pool → Work
  processed task item pool =
      process_task_item outside payload_of (record { task = task; item = item; pool = pool })

  took :
      (task : TaskRecord) (item : TaskItemRecord) (rest : List TaskItemRecord) (room : ℕ)
      (pool : Pool) (w : Work) (r : Run)
      → is_due task item ≡ true
      → Counted (record { task = task; item = item; pool = pool }) w
      → Balance w.task rest room r
      → Balance task (item ∷ rest) (suc room) (keep_item w.item r)
  unfolding keep_item count is_due is_queued
  took task item rest room pool w r d c b = record {
    counted = ground (arith, d, c.once, c.gone, b.counted);
    used = ground (arith, d, c.gone, b.used);
  }

  run_items-Balance :
      (items : List TaskItemRecord) (task : TaskRecord) (room : ℕ) (pool : Pool)
      → Balance task items room (run_items outside payload_of task items room pool)
  unfolding run_items keep_item count
  run_items-Balance [] task room pool = record { counted = refl; used = refl }
  run_items-Balance (item ∷ rest) task zero pool = record { counted = refl; used = refl }
  run_items-Balance (item ∷ rest) task (suc room) pool = elim (Bool-cases (is_due task item)) [
    | inl d ↦ rw d (
        took task item rest room pool (processed task item pool) _ d (process_task_item-Counted _) (
          run_items-Balance rest (processed task item pool).task room
            (processed task item pool).pool))
    | inr d ↦ rw d (passed item (run_items-Balance rest task (suc room) pool))
  ]

  pub start_task-done : (now : String) (task : TaskRecord) → done (start_task now task) ≡ done task
  unfolding start_task done
  start_task-done now task = ground arith

  pub finish_task_if_done-done :
      (now : String) (task : TaskRecord) → done (finish_task_if_done now task) ≡ done task
  unfolding finish_task_if_done done
  finish_task_if_done-done now task = ground arith

  run_task-Balance :
      (now : String) (task : TaskRecord) (items : List TaskItemRecord) (room : ℕ) (pool : Pool)
      → Balance task items room (run_task outside payload_of now task items room pool)
  unfolding run_task
  run_task-Balance now task items room pool =
      let b = run_items-Balance items (start_task now task) room pool in
      record {
        counted = omega (
          arith,
          b.counted,
          start_task-done now task,
          finish_task_if_done-done
              (outside.times
                (run_items outside payload_of (start_task now task) items room pool).pool.readings)
              (run_items outside payload_of (start_task now task) items room pool).task,
        );
        used = b.used;
      }

  abbrev totals : Queue → ℕ
  totals q = done_all q.tasks + count is_queued q.items

  -- the tasks and items that a round leaves, against those it found
  pub record Settles (tasks : List TaskRecord) (items : List TaskItemRecord) (room : ℕ) (q : Queue)
      : Type 0 where
    pub counted :
        done_all q.tasks + count is_queued q.items ≡ done_all tasks + count is_queued items
    pub used : q.room + count is_queued items ≡ room + count is_queued q.items

  run_after :
      (task : TaskRecord) (rest : List TaskRecord) (items : List TaskItemRecord) (room : ℕ)
      (r : Run) (q : Queue)
      → Balance task items room r
      → Settles rest r.items r.room q
      → Settles (task ∷ rest) items room (keep_task r.task q)
  unfolding keep_task done_all
  run_after task rest items room r q b h = record {
    counted = omega (arith, b.counted, h.counted);
    used = omega (arith, b.used, h.used);
  }

  skip_task :
      (task : TaskRecord) (rest : List TaskRecord) (items : List TaskItemRecord) (room : ℕ)
      (q : Queue)
      → Settles rest items room q
      → Settles (task ∷ rest) items room (keep_task task q)
  unfolding keep_task done_all
  skip_task task rest items room q h = record { counted = omega (arith, h.counted); used = h.used }

  pub run_tasks-Settles :
      (now : String) (tasks : List TaskRecord) (items : List TaskItemRecord) (room : ℕ)
      (pool : Pool)
      → Settles tasks items room (run_tasks outside payload_of now tasks items room pool)
  unfolding run_tasks
  run_tasks-Settles now [] items room pool = record { counted = refl; used = refl }
  run_tasks-Settles now (task ∷ rest) items zero pool = record { counted = refl; used = refl }
  run_tasks-Settles now (task ∷ rest) items (suc room) pool =
      elim (Bool-cases (task.status == "queued" || task.status == "running")) [
        | inl e ↦ rw e (
            run_after task rest items (suc room) _ _
              (run_task-Balance now task items (suc room) pool) (run_tasks-Settles now rest _ _ _))
        | inr e ↦ rw e (
            skip_task task rest items (suc room) _
              (run_tasks-Settles now rest items (suc room) pool))
      ]

  -- In a round of the worker each item that leaves the queue is counted exactly once, as a success or a
  -- failure of a task, and at most as many items leave it as the limit allows.
  pub process_queued_task_items-counts :
      (limit : ℕ) (tasks : List TaskRecord) (items : List TaskItemRecord) (pool : Pool)
      → (done_all (process_queued_task_items outside payload_of limit tasks items pool).tasks
            + count is_queued
                (process_queued_task_items outside payload_of limit tasks items pool).items
          ≡ done_all tasks + count is_queued items)
        × (count is_queued items
            ≤ limit
              + count is_queued
                  (process_queued_task_items outside payload_of limit tasks items pool).items)
  unfolding process_queued_task_items
  process_queued_task_items-counts limit tasks items pool =
      let h = run_tasks-Settles (outside.times pool.readings) tasks items limit _ in
      (h.counted, omega (arith, h.used))
