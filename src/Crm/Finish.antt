-- ===== src/Crm/Finish.antt =====
-- The books over all tasks: a round of the worker in memory keeps them, and rounds that follow one
-- another finish every task.
use jianghu_scrm.Prelude.{
  List, String, Option, ◌==◌, All, ◌≡◌, true, false, ◌∷◌, ℕ, arith, ◌≤◌, ap, [], suc, Bool-cases,
  refl, zero, ◌||◌, ◌∙◌, inl, inr, eq_flip,
}
use jianghu_scrm.Crm.Pool.{Outside, Pool}
use jianghu_scrm.Models.Queue.{TaskRecord, TaskItemRecord, BatchTagTaskPayload}
use jianghu_scrm.Crm.Books.{is_workable, IsOther, IsKnown, IsBooked, waiting, task_ids, AreApart}
use jianghu_scrm.Crm.Worker.{is_finished, Queue, keep_task, run_tasks, Run}
use jianghu_scrm.Crm.Rounds.{Turn, run_task-Turn}

abbrev pub AreBooked : List TaskRecord → List TaskItemRecord → Type 0
AreBooked tasks items = All (IsBooked items) tasks

abbrev pub AreKnown : List TaskRecord → Type 0
AreKnown tasks = All IsKnown tasks

abbrev pub AreFinished : List TaskRecord → Type 0
AreFinished tasks = All (λ t. is_finished t ≡ true) tasks

-- tasks with other ids than the one whose items changed
pub booked_rest :
    (id : String) (items items' : List TaskItemRecord) (rest : List TaskRecord)
    → All (IsOther id) (task_ids rest)
    → ((x : String) → (id == x) ≡ false → waiting x items' ≡ waiting x items)
    → AreBooked rest items
    → AreBooked rest items'
booked_rest id items items' [] a w b = tt
booked_rest id items items' (t ∷ rest) a w b =
    (omega (arith, b.0, w t.id (eq_flip t.id id a.0)), booked_rest id items items' rest a.1 w b.1)

IsBooked-moved :
    (id : String) (task : TaskRecord) (items items' : List TaskItemRecord)
    → task.id ≡ id
    → waiting id items' ≡ waiting id items
    → IsBooked items task
    → IsBooked items' task
IsBooked-moved id task items items' e w b =
    omega (arith, b, w, ap (λ x. waiting x items') e, ap (λ x. waiting x items) e)

closed_finished :
    (task : TaskRecord) → is_workable task ≡ false → IsKnown task → is_finished task ≡ true
closed_finished task o k = ground (arith, o, k)

module _ (outside : Outside) (payload_of : String → Option BatchTagTaskPayload) where
  -- what a round does to the books
  pub record Round (tasks : List TaskRecord) (items : List TaskItemRecord) (q : Queue)
      : Type 0 where
    pub ids : task_ids q.tasks ≡ task_ids tasks
    pub others :
        (id : String) → All (IsOther id) (task_ids tasks) → waiting id q.items ≡ waiting id items
    pub booked : AreApart (task_ids tasks) → AreBooked tasks items → AreBooked q.tasks q.items
    pub known : AreKnown tasks → AreKnown q.tasks
    pub finished :
        AreApart (task_ids tasks)
        → AreBooked tasks items
        → AreKnown tasks
        → 1 ≤ q.room
        → AreFinished q.tasks

  idle-Round :
      (tasks : List TaskRecord) (items : List TaskItemRecord) (pool : Pool)
      → Round tasks items (record { tasks = tasks; items = items; room = 0; pool = pool })
  idle-Round tasks items pool = record {
    ids = refl;
    others = λ id h. refl;
    booked = λ a b. b;
    known = λ k. k;
    finished = λ a b k room. absurd (omega (arith, room));
  }

  -- a task that is worked on, then the rest
  worked :
      (task : TaskRecord) (rest : List TaskRecord) (items : List TaskItemRecord) (r : Run)
      (q : Queue)
      → (1 ≤ q.room → 1 ≤ r.room)
      → Turn task items r
      → Round rest r.items q
      → Round (task ∷ rest) items (keep_task r.task q)
  unfolding keep_task
  worked task rest items r q room t h =
      let later : AreApart (task_ids (task ∷ rest))
          → waiting task.id q.items ≡ waiting task.id r.items =
        λ a. h.others task.id a.0 in
      let between : AreApart (task_ids (task ∷ rest))
          → AreBooked (task ∷ rest) items
          → AreBooked rest r.items =
        λ a b. booked_rest task.id items r.items rest a.0 t.others b.1 in
      record {
        ids = ap (λ x. x ∷ task_ids q.tasks) t.same_id ∙ ap (λ xs. task.id ∷ xs) h.ids;
        others = λ id o. h.others id o.1 ∙ t.others id o.0;
        booked = λ a b. (
          IsBooked-moved task.id r.task r.items q.items t.same_id (later a) (t.booked b.0),
          h.booked a.1 (between a b),
        );
        known = λ k. (t.known k.0, h.known k.1);
        finished =
            λ a b k left. (t.finished b.0 (room left), h.finished a.1 (between a b) k.1 left);
      }

  passed_over :
      (task : TaskRecord) (rest : List TaskRecord) (items : List TaskItemRecord) (q : Queue)
      → is_workable task ≡ false
      → Round rest items q
      → Round (task ∷ rest) items (keep_task task q)
  unfolding keep_task
  passed_over task rest items q o h = record {
    ids = ap (λ xs. task.id ∷ xs) h.ids;
    others = λ id a. h.others id a.1;
    booked = λ a b. (
      IsBooked-moved task.id task items q.items refl (h.others task.id a.0) b.0,
      h.booked a.1 b.1,
    );
    known = λ k. (k.0, h.known k.1);
    finished = λ a b k left. (closed_finished task o k.0, h.finished a.1 b.1 k.1 left);
  }

  run_tasks-room :
      (now : String) (tasks : List TaskRecord) (items : List TaskItemRecord) (room : ℕ)
      (pool : Pool)
      → 1 ≤ (run_tasks outside payload_of now tasks items room pool).room
      → 1 ≤ room
  unfolding run_tasks
  run_tasks-room now [] items room pool h = h
  run_tasks-room now (task ∷ rest) items zero pool h = h
  run_tasks-room now (task ∷ rest) items (suc room) pool h = omega arith

  pub run_tasks-Round :
      (now : String) (tasks : List TaskRecord) (items : List TaskItemRecord) (room : ℕ)
      (pool : Pool)
      → Round tasks items (run_tasks outside payload_of now tasks items room pool)
  unfolding run_tasks is_workable
  run_tasks-Round now [] items room pool = record {
    ids = refl;
    others = λ id h. refl;
    booked = λ a b. tt;
    known = λ k. tt;
    finished = λ a b k left. tt;
  }
  run_tasks-Round now (task ∷ rest) items zero pool = idle-Round (task ∷ rest) items pool
  run_tasks-Round now (task ∷ rest) items (suc room) pool =
      elim (Bool-cases (task.status == "queued" || task.status == "running")) [
        | inl e ↦ rw e (
            worked task rest items _ _ (run_tasks-room now rest _ _ _)
              (run_task-Turn outside payload_of now task items (suc room) pool)
              (run_tasks-Round now rest _ _ _))
        | inr e ↦
            rw e (passed_over task rest items _ e (run_tasks-Round now rest items (suc room) pool))
      ]
