-- ===== src/Crm/Liveness.antt =====
-- Rounds of the worker in memory that follow one another finish every task.
use jianghu_scrm.Crm.Pool.{Outside, Pool}
use jianghu_scrm.Prelude.{
  String, Option, ℕ, List, suc, ◌≤◌, ◌⊎◌, zero, count, ◌≡◌, ◌∷◌, true, ◌<◌, ◌+◌, arith, [], inl,
  inr, ◌==◌, leb, ◌||◌, Bool-cases, false,
}
use jianghu_scrm.Models.Queue.{BatchTagTaskPayload, TaskRecord, TaskItemRecord}
use jianghu_scrm.Crm.Worker.{run_tasks, keep_task, process_queued_task_items, Queue, is_finished}
use jianghu_scrm.Crm.Tasks.{process_queued_work, Board}
use jianghu_scrm.Crm.Finish.{AreFinished}
use jianghu_scrm.Crm.Ledger.{
  IsSound, finished_closed, queue_of, queue_of-Round, process_queued_work-IsSound,
}
use jianghu_scrm.Crm.Progress.{is_queued, run_tasks-Settles}
use jianghu_scrm.Crm.Books.{is_workable}

leb→le : (a b : ℕ) → leb a b ≡ true → a ≤ b
leb→le a b h = ground arith

leb→gt : (a b : ℕ) → leb a b ≡ false → b < a
leb→gt a b h = ground arith

module _ (outside : Outside) (payload_of : String → Option BatchTagTaskPayload) where
  unfoldable pub rounds : ℕ → ℕ → Board → Board
  rounds zero limit b = b
  rounds (suc n) limit b = rounds n limit (process_queued_work outside payload_of limit b)

  keep_finished :
      (task : TaskRecord) (tasks : List TaskRecord) (q : Queue)
      → is_finished task ≡ true
      → AreFinished q.tasks
      → AreFinished (keep_task task q).tasks
  unfolding keep_task
  keep_finished task tasks q h k = (h, k)

  closed_tests :
      (task : TaskRecord)
      → is_finished task ≡ true
      → (task.status == "queued" || task.status == "running") ≡ false
  unfolding is_workable
  closed_tests task h = finished_closed task h

  -- finished tasks are passed over
  run_tasks-AreFinished :
      (now : String) (tasks : List TaskRecord) (items : List TaskItemRecord) (room : ℕ)
      (pool : Pool)
      → AreFinished tasks
      → AreFinished (run_tasks outside payload_of now tasks items room pool).tasks
  unfolding run_tasks keep_task
  run_tasks-AreFinished now [] items room pool h = tt
  run_tasks-AreFinished now (task ∷ rest) items zero pool h = h
  run_tasks-AreFinished now (task ∷ rest) items (suc room) pool h =
      rw (closed_tests task h.0) (h.0, run_tasks-AreFinished now rest items (suc room) pool h.1)

  process_queued_work-AreFinished :
      (limit : ℕ) (b : Board)
      → AreFinished b.tasks
      → AreFinished (process_queued_work outside payload_of limit b).tasks
  unfolding process_queued_work process_queued_task_items
  process_queued_work-AreFinished limit b h = run_tasks-AreFinished _ b.tasks b.items limit _ h

  rounds-AreFinished :
      (n limit : ℕ) (b : Board) → AreFinished b.tasks → AreFinished (rounds n limit b).tasks
  unfolding rounds
  rounds-AreFinished zero limit b h = h
  rounds-AreFinished (suc n) limit b h =
      rounds-AreFinished n limit _ (process_queued_work-AreFinished limit b h)

  -- A round finishes every task, or it takes as many queued items as its limit allows.
  round_cases :
      (limit : ℕ) (b : Board)
      → IsSound b
      → AreFinished (process_queued_work outside payload_of limit b).tasks
        ⊎ (count is_queued b.items
            ≡ limit + count is_queued (process_queued_work outside payload_of limit b).items)
  unfolding process_queued_work process_queued_task_items
  round_cases limit b h =
      let used =
        (run_tasks-Settles outside payload_of (outside.times (b.pool.readings + 1)) b.tasks b.items
          limit (record b.pool { readings = b.pool.readings + 1 + 1 })).used in
      elim (Bool-cases (leb 1 (queue_of outside payload_of limit b).room)) [
        | inl left ↦ inl (
            (queue_of-Round outside payload_of limit b).finished h.apart h.booked h.known
              (leb→le 1 _ left))
        | inr full ↦ inr (omega (arith, used, leb→gt 1 _ full))
      ]

  -- Where the books of the tasks are sound, more rounds of the worker in memory than items are queued,
  -- each with a limit of one or more, leave every task finished.
  pub rounds-finish :
      (n limit : ℕ) (b : Board)
      → IsSound b
      → 1 ≤ limit
      → count is_queued b.items < n
      → AreFinished (rounds n limit b).tasks
  unfolding rounds
  rounds-finish zero limit b h l k = absurd (omega (arith, k))
  rounds-finish (suc n) limit b h l k = elim (round_cases limit b h) [
    | inl done ↦ rounds-AreFinished n limit _ done
    | inr took ↦
        rounds-finish n limit _ (process_queued_work-IsSound outside payload_of limit b h) l
          (omega (arith, k, l, took))
  ]
