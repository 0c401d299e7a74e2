-- ===== src/Crm/Rounds.antt =====
-- A round of the worker in memory keeps the books of all tasks, and where the limit does not stop it
-- it finishes every task.
use jianghu_scrm.Crm.Pool.{Outside, Pool}
use jianghu_scrm.Prelude.{
  String, Option, List, ◌≤◌, ◌≡◌, arith, true, ◌==◌, false, Bool-cases, eqb, inl, ℕ, ◌∙◌, inr, refl,
  ◌+◌, ap,
}
use jianghu_scrm.Models.Queue.{BatchTagTaskPayload, TaskRecord, TaskItemRecord}
use jianghu_scrm.Crm.Worker.{
  finish_task_if_done, start_task, done_status, is_left, is_finished, Run, run_task,
}
use jianghu_scrm.Crm.Books.{is_workable, IsKnown, IsBooked, waiting, Books, run_items-Books}
use jianghu_scrm.Crm.Progress.{done, start_task-done, finish_task_if_done-done}

start_task-IsKnown :
    (now : String) (task : TaskRecord) → IsKnown task → IsKnown (start_task now task)
unfolding start_task is_workable is_finished
start_task-IsKnown now task h = elim (Bool-cases (task.status == "queued")) [
  | inl e ↦ rw e refl
  | inr e ↦ rw e h
]

done_status-is_finished :
    (now : String) (task : TaskRecord)
    → is_finished (record task { finished_at = now; status = done_status task }) ≡ true
unfolding done_status is_finished
done_status-is_finished now task = elim (Bool-cases (eqb task.failed_count 0)) [
  | inl e ↦ rw e refl
  | inr e ↦ elim (Bool-cases (eqb task.success_count 0)) [
    | inl f ↦ rw (e, f) refl
    | inr f ↦ rw (e, f) refl
  ]
]

is_finished-IsKnown : (task : TaskRecord) → is_finished task ≡ true → IsKnown task
is_finished-IsKnown task h = ground (arith, h)

finish_task_if_done-IsKnown :
    (now : String) (task : TaskRecord) → IsKnown task → IsKnown (finish_task_if_done now task)
unfolding finish_task_if_done
finish_task_if_done-IsKnown now task h = elim (Bool-cases (is_left task)) [
  | inl e ↦ rw e h
  | inr e ↦ rw e (is_finished-IsKnown _ (done_status-is_finished now task))
]

left_finished :
    (task : TaskRecord)
    → is_left task ≡ true
    → task.total_count ≤ done task
    → is_finished task ≡ true
unfolding is_left done
left_finished task e h = ground (arith, e, h)

-- a task that counts its total is finished
finish_task_if_done-is_finished :
    (now : String) (task : TaskRecord)
    → task.total_count ≤ done task
    → is_finished (finish_task_if_done now task) ≡ true
unfolding finish_task_if_done
finish_task_if_done-is_finished now task h = elim (Bool-cases (is_left task)) [
  | inl e ↦ rw e (left_finished task e h)
  | inr e ↦ rw e (done_status-is_finished now task)
]

start_task-same :
    (now : String) (task : TaskRecord)
    → ((start_task now task).id ≡ task.id) × ((start_task now task).total_count ≡ task.total_count)
unfolding start_task
start_task-same now task = (ground arith, ground arith)

finish_task_if_done-same :
    (now : String) (task : TaskRecord)
    → ((finish_task_if_done now task).id ≡ task.id)
      × ((finish_task_if_done now task).total_count ≡ task.total_count)
unfolding finish_task_if_done
finish_task_if_done-same now task = elim (Bool-cases (is_left task)) [
  | inl e ↦ rw e (refl, refl)
  | inr e ↦ rw e (refl, refl)
]

IsKnown-status :
    (task task' : TaskRecord) → task'.status ≡ task.status → IsKnown task → IsKnown task'
unfolding is_workable is_finished
IsKnown-status task task' e h = rw e h

-- what a round does to one task and its items
pub record Turn (task : TaskRecord) (items : List TaskItemRecord) (r : Run) : Type 0 where
  pub same_id : r.task.id ≡ task.id
  pub booked : IsBooked items task → IsBooked r.items r.task
  pub known : IsKnown task → IsKnown r.task
  pub others : (id : String) → (task.id == id) ≡ false → waiting id r.items ≡ waiting id items
  pub finished : IsBooked items task → 1 ≤ r.room → is_finished r.task ≡ true

module _ (outside : Outside) (payload_of : String → Option BatchTagTaskPayload) where
  -- the run over the items of a started task, closed by the finish
  close_run :
      (now later : String) (task : TaskRecord) (items : List TaskItemRecord) (r : Run) (pool : Pool)
      → Books (start_task now task) items r
      → Turn task items (record r { task = finish_task_if_done later r.task; pool = pool })
  close_run now later task items r pool b =
      let same = start_task-same now task in
      let kept = finish_task_if_done-same later r.task in
      let id_now : (finish_task_if_done later r.task).id ≡ task.id = kept.0 ∙ b.same_id ∙ same.0 in
      let counted : done r.task + waiting task.id r.items ≡ done task + waiting task.id items =
        omega (
          arith,
          b.own,
          ap (λ x. waiting x r.items) same.0,
          ap (λ x. waiting x items) same.0,
          start_task-done outside payload_of now task,
        ) in
      record {
        same_id = id_now;
        booked = λ h. omega (
          arith,
          h,
          counted,
          ap (λ x. waiting x r.items) id_now,
          finish_task_if_done-done outside payload_of later r.task,
          kept.1,
          b.same_total,
          same.1,
        );
        known = λ h. finish_task_if_done-IsKnown later r.task (
            IsKnown-status (start_task now task) r.task b.same_status
              (start_task-IsKnown now task h));
        others = λ id h. b.others id (ap (λ x. x == id) same.0 ∙ h);
        finished = λ h room. finish_task_if_done-is_finished later r.task (
            omega (
              arith,
              h,
              counted,
              b.emptied room,
              ap (λ x. waiting x r.items) same.0,
              b.same_total,
              same.1,
            ));
      }

  pub run_task-Turn :
      (now : String) (task : TaskRecord) (items : List TaskItemRecord) (room : ℕ) (pool : Pool)
      → Turn task items (run_task outside payload_of now task items room pool)
  unfolding run_task
  run_task-Turn now task items room pool =
      close_run now _ task items _ _
        (run_items-Books outside payload_of items (start_task now task) room pool)
