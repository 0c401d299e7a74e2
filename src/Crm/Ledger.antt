-- ===== src/Crm/Ledger.antt =====
-- The tasks in memory as a state machine: tasks are created, and the worker makes rounds.
use jianghu_scrm.Crm.Tasks.{Board, new_items, process_queued_work, enqueue_batch_tag_task, new_task}
use jianghu_scrm.Crm.Pool.{Outside}
use jianghu_scrm.Crm.Books.{is_workable, waiting, AreApart, task_ids, waits, IsOther}
use jianghu_scrm.Prelude.{
  String, List, Option, ℕ, ◌≡◌, true, All, ◌++◌, count, ◌+◌, false, length, count-append, ◌<>◌,
  ◌==◌, arith, ◌∷◌, eq_iff, eq_refl, [], ◌∙◌, refl, subst, ◌⊎◌, Bool, inl, ◌||◌, inr, Bool-cases,
  sym,
}
use jianghu_scrm.Models.Queue.{BatchTagTaskPayload, TaskRecord, TaskItemRecord}
use jianghu_scrm.Crm.Worker.{is_finished, process_queued_task_items, Queue}
use jianghu_scrm.Crm.Finish.{AreBooked, AreKnown, booked_rest, Round, run_tasks-Round}
use jianghu_scrm.Crm.Progress.{done}

pub record IsSound (b : Board) : Type 0 where
  pub apart : AreApart (task_ids b.tasks)
  pub booked : AreBooked b.tasks b.items
  pub known : AreKnown b.tasks
  pub orphans : (id : String) → All (IsOther id) (task_ids b.tasks) → waiting id b.items ≡ 0

waiting-append :
    (id : String) (xs ys : List TaskItemRecord)
    → waiting id (xs ++ ys) ≡ waiting id xs + waiting id ys
unfolding waiting
waiting-append id xs ys = count-append (waits id) xs ys

module _ (outside : Outside) (marshal : BatchTagTaskPayload → String) where
  new_items-waiting :
      (id now : String) (drawn : ℕ) (ids : List String)
      → waiting id (new_items outside marshal id now drawn ids) ≡ length ids
  unfolding new_items waiting waits count
  new_items-waiting id now drawn [] = refl
  new_items-waiting id now drawn (x ∷ ids) =
      rw (eq_refl id) (omega (arith, new_items-waiting id now (drawn + 1) ids))

  new_items-others :
      (id task_id now : String) (drawn : ℕ) (ids : List String)
      → (task_id == id) ≡ false
      → waiting id (new_items outside marshal task_id now drawn ids) ≡ 0
  unfolding new_items waiting waits count
  new_items-others id task_id now drawn [] h = refl
  new_items-others id task_id now drawn (x ∷ ids) h =
      rw h (omega (arith, new_items-others id task_id now (drawn + 1) ids h))

  -- A new task waits for all its items.
  enqueue_batch_tag_task-IsSound :
      (p : BatchTagTaskPayload) (b : Board)
      → All (IsOther (new_task outside marshal p b.pool).id) (task_ids b.tasks)
      → IsSound b
      → IsSound (enqueue_batch_tag_task outside marshal p b).1
  unfolding enqueue_batch_tag_task new_task
  enqueue_batch_tag_task-IsSound p b fresh h =
      let id : String = "task" <> outside.suffix b.pool.drawn in
      let added : List TaskItemRecord =
        new_items outside marshal id (outside.times b.pool.readings) (b.pool.drawn + 1)
          p.customer_i_ds in
      record {
        apart = (fresh, h.apart);
        booked = (
          unfold done in
              omega (
                arith,
                waiting-append id b.items added,
                h.orphans id fresh,
                new_items-waiting id (outside.times b.pool.readings) (b.pool.drawn + 1)
                    p.customer_i_ds,
              ),
          booked_rest id b.items (b.items ++ added) b.tasks fresh
              (λ x e.
                waiting-append x b.items added
                ∙ omega (
                  arith,
                  new_items-others x id (outside.times b.pool.readings) (b.pool.drawn + 1)
                      p.customer_i_ds e,
                ))
              h.booked,
        );
        known = (unfold is_workable is_finished in refl, h.known);
        orphans = λ x a.
            waiting-append x b.items added
            ∙ omega (
              arith,
              h.orphans x a.1,
              new_items-others x id (outside.times b.pool.readings) (b.pool.drawn + 1)
                  p.customer_i_ds a.0,
            );
      }

others_moved :
    (id : String) (ids ids' : List String)
    → ids' ≡ ids
    → All (IsOther id) ids'
    → All (IsOther id) ids
others_moved id ids ids' e a = subst (All (IsOther id)) e a

is_either : String → String → String → String → Bool
is_either x a b c = x == a || x == b || x == c

either_cases : (x a b c : String) → is_either x a b c ≡ true → (x ≡ a) ⊎ (x ≡ b) ⊎ (x ≡ c)
unfolding is_either
either_cases x a b c h = elim (Bool-cases (x == a)) [
  | inl e ↦ inl ((eq_iff x a).0 e)
  | inr e ↦ elim (Bool-cases (x == b)) [
    | inl f ↦ inr (inl ((eq_iff x b).0 f))
    | inr f ↦ inr (inr ((eq_iff x c).0 (ground (arith, h, e, f))))
  ]
]

pub finished_closed : (task : TaskRecord) → is_finished task ≡ true → is_workable task ≡ false
unfolding is_workable is_finished is_either
finished_closed task h = elim (either_cases task.status "completed" "failed" "partial_failed" h) [
  | inl e ↦ rw e refl
  | inr (inl e) ↦ rw e refl
  | inr (inr e) ↦ rw e refl
]

module _ (outside : Outside) (payload_of : String → Option BatchTagTaskPayload) where
  abbrev pub queue_of : ℕ → Board → Queue
  queue_of limit b =
      process_queued_task_items outside payload_of limit b.tasks b.items
        (record b.pool { readings = b.pool.readings + 1 })

  pub queue_of-Round :
      (limit : ℕ) (b : Board) → Round outside payload_of b.tasks b.items (queue_of limit b)
  unfolding process_queued_task_items
  queue_of-Round limit b = run_tasks-Round outside payload_of _ b.tasks b.items limit _

  pub process_queued_work-IsSound :
      (limit : ℕ) (b : Board) → IsSound b → IsSound (process_queued_work outside payload_of limit b)
  unfolding process_queued_work
  process_queued_work-IsSound limit b h =
      let r = queue_of-Round limit b in
      record {
        apart = subst AreApart (sym r.ids) h.apart;
        booked = r.booked h.apart h.booked;
        known = r.known h.known;
        orphans = λ id a.
            let a' = others_moved id (task_ids b.tasks) _ r.ids a in
            r.others id a' ∙ h.orphans id a';
      }

module _ (outside : Outside) (marshal : BatchTagTaskPayload → String)
    (payload_of : String → Option BatchTagTaskPayload) where
  -- A task is created with an identifier that no task has, or the worker makes a round.
  pub data Step : Board → Board → Type 0 where
    enqueue :
        (p : BatchTagTaskPayload) (b : Board)
        → All (IsOther (new_task outside marshal p b.pool).id) (task_ids b.tasks)
        → Step b (enqueue_batch_tag_task outside marshal p b).1
    work : (limit : ℕ) (b : Board) → Step b (process_queued_work outside payload_of limit b)

  pub data Reach (a : Board) : Board → Type 0 where
    here : Reach a a
    next : {b c : Board} → Reach a b → Step b c → Reach a c

  Step-IsSound : {b c : Board} → Step b c → IsSound b → IsSound c
  Step-IsSound (enqueue p b fresh) h = enqueue_batch_tag_task-IsSound outside marshal p b fresh h
  Step-IsSound (work limit b) h = process_queued_work-IsSound outside payload_of limit b h

  -- Where the ids of the tasks differ, each task is open or finished, its successes, failures and
  -- queued items make up its total, and no item waits for an id that no task has, that is still so
  -- after any creations of tasks under new identifiers and any rounds of the worker in memory.
  pub Reach-IsSound : {a b : Board} → IsSound a → Reach a b → IsSound b
  Reach-IsSound h here = h
  Reach-IsSound h (next r s) = Step-IsSound s (Reach-IsSound h r)
