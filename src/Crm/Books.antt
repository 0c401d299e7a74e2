-- ===== src/Crm/Books.antt =====
-- The books of the tasks in memory: what the worker and the creation of tasks keep of the counts of
-- each task and of its queued items.
use jianghu_scrm.Crm.Pool.{Outside, Pool}
use jianghu_scrm.Prelude.{
  count, String, List, Option, ◌≡◌, ◌==◌, ◌∷◌, Bool, ◌||◌, true, ◌&&◌, All, false, ℕ, arith, [],
  ◌+◌, ap, some, ◌≤◌, ◌∙◌, if◌then◌else◌, none, Bool-cases, refl, inl, inr, eq_iff, suc, zero, sym,
  map,
}
use jianghu_scrm.Crm.Worker.{
  keep_item, fail_item, is_due, Work, Run, is_finished, tag_item, process_task_item, attempted,
  tag_customer, process_batch_tag_item, run_items,
}
use jianghu_scrm.Models.Queue.{TaskRecord, TaskItemRecord, BatchTagTaskPayload}
use jianghu_scrm.Crm.Progress.{done, Counted, is_queued, process_task_item-Counted}
use jianghu_scrm.Models.Crm.{Customer}

-- the queued items of a task
unfoldable pub waits : String → TaskItemRecord → Bool
waits id item = item.task_id == id && item.status == "queued"

unfoldable pub waiting : String → List TaskItemRecord → ℕ
unfolding waits count
waiting id items = count (waits id) items

unfoldable pub is_workable : TaskRecord → Bool
is_workable task = task.status == "queued" || task.status == "running"

-- What a task counts and what waits make up its total.
abbrev pub IsBooked : List TaskItemRecord → TaskRecord → Type 0
IsBooked items task = done task + waiting task.id items ≡ task.total_count

-- A task is open or finished.
abbrev pub IsKnown : TaskRecord → Type 0
IsKnown task = (is_workable task || is_finished task) ≡ true

-- No text of a list is the given one, and no two of a list are the same.
abbrev pub IsOther : String → String → Type 0
IsOther id x = (x == id) ≡ false

abbrev pub AreApart : List String → Type 0
AreApart [] = Unit
AreApart (id ∷ ids) = All (IsOther id) ids × AreApart ids

abbrev pub task_ids : List TaskRecord → List String
task_ids tasks = map (λ t. t.id) tasks

-- what the processing of an item leaves as it is
record IsKept (v w : Work) : Type 0 where
  same_id : w.task.id ≡ v.task.id
  same_total : w.task.total_count ≡ v.task.total_count
  same_status : w.task.status ≡ v.task.status
  same_item : w.item.task_id ≡ v.item.task_id

failed-IsKept : (message : String) (w : Work) → IsKept w (fail_item message w)
unfolding fail_item
failed-IsKept message w = record {
  same_id = refl;
  same_total = refl;
  same_status = refl;
  same_item = refl;
}

module _ (outside : Outside) (payload_of : String → Option BatchTagTaskPayload) where
  tagged-IsKept :
      (w : Work) (p : BatchTagTaskPayload) (o : Option Customer)
      → IsKept w (tag_customer outside payload_of w p o)
  unfolding tag_customer
  tagged-IsKept w p none = failed-IsKept _ w
  tagged-IsKept w p (some c) = record {
    same_id = refl;
    same_total = refl;
    same_status = refl;
    same_item = refl;
  }

  tag_item-IsKept :
      (w : Work) (o : Option BatchTagTaskPayload) → IsKept w (tag_item outside payload_of w o)
  unfolding tag_item
  tag_item-IsKept w none = failed-IsKept _ w
  tag_item-IsKept w (some p) = tagged-IsKept w p _

  attempted-IsKept : (w v : Work) → IsKept (attempted outside payload_of w) v → IsKept w v
  unfolding attempted
  attempted-IsKept w v h = record {
    same_id = h.same_id;
    same_total = h.same_total;
    same_status = h.same_status;
    same_item = h.same_item;
  }

  process_task_item-IsKept : (w : Work) → IsKept w (process_task_item outside payload_of w)
  unfolding process_task_item process_batch_tag_item
  process_task_item-IsKept w = elim (Bool-cases (w.task.type == "batch_customer_tags")) [
    | inl e ↦ rw e (attempted-IsKept w _ (tag_item-IsKept _ _))
    | inr e ↦ rw e (attempted-IsKept w _ (failed-IsKept _ _))
  ]

-- What a run over the items of a task does to the books.
pub record Books (task : TaskRecord) (items : List TaskItemRecord) (r : Run) : Type 0 where
  pub same_id : r.task.id ≡ task.id
  pub same_total : r.task.total_count ≡ task.total_count
  pub same_status : r.task.status ≡ task.status
  pub own : done r.task + waiting task.id r.items ≡ done task + waiting task.id items
  pub others : (id : String) → (task.id == id) ≡ false → waiting id r.items ≡ waiting id items
  pub emptied : 1 ≤ r.room → waiting task.id r.items ≡ 0

idle-Books :
    (task : TaskRecord) (items : List TaskItemRecord) (pool : Pool)
    → Books task items (record { task = task; items = items; room = 0; pool = pool })
idle-Books task items pool = record {
  same_id = refl;
  same_total = refl;
  same_status = refl;
  own = refl;
  others = λ id h. refl;
  emptied = λ h. absurd (omega (arith, h));
}

-- an item that is not due stays
passed-Books :
    (task : TaskRecord) (item : TaskItemRecord) (rest : List TaskItemRecord) (r : Run)
    → is_due task item ≡ false
    → Books task rest r
    → Books task (item ∷ rest) (keep_item item r)
unfolding keep_item waiting waits count is_due
passed-Books task item rest r d b = record {
  same_id = b.same_id;
  same_total = b.same_total;
  same_status = b.same_status;
  own = omega (arith, b.own);
  others = λ id h. ap (λ n. (if waits id item then 1 else 0) + n) (b.others id h);
  emptied = λ h. ground (arith, d, b.emptied h);
}

due_task :
    (task : TaskRecord) (item : TaskItemRecord) → is_due task item ≡ true → item.task_id ≡ task.id
unfolding is_due
due_task task item d = ground (arith, d, eq_iff item.task_id task.id)

due_waits :
    (task : TaskRecord) (item : TaskItemRecord)
    → is_due task item ≡ true
    → waits task.id item ≡ true
unfolding is_due waits
due_waits task item d = d

gone_waits : (id : String) (item : TaskItemRecord) → is_queued item ≡ false → waits id item ≡ false
unfolding is_queued waits
gone_waits id item g = ground (arith, g)

other_waits :
    (id : String) (task : TaskRecord) (item : TaskItemRecord)
    → is_due task item ≡ true
    → (task.id == id) ≡ false
    → waits id item ≡ false
unfolding waits
other_waits id task item d h = rw (due_task task item d, h)

waiting-skip :
    (id : String) (item : TaskItemRecord) (rest : List TaskItemRecord)
    → waits id item ≡ false
    → waiting id (item ∷ rest) ≡ waiting id rest
unfolding waiting count
waiting-skip id item rest h = rw h (omega arith)

waiting-take :
    (id : String) (item : TaskItemRecord) (rest : List TaskItemRecord)
    → waits id item ≡ true
    → waiting id (item ∷ rest) ≡ waiting id rest + 1
unfolding waiting count
waiting-take id item rest h = rw h (omega arith)

-- an item that was due is processed
took-Books :
    (v w : Work) (rest : List TaskItemRecord) (r : Run)
    → is_due v.task v.item ≡ true
    → Counted v w
    → IsKept v w
    → Books w.task rest r
    → Books v.task (v.item ∷ rest) (keep_item w.item r)
unfolding keep_item
took-Books v w rest r d c k b = record {
  same_id = b.same_id ∙ k.same_id;
  same_total = b.same_total ∙ k.same_total;
  same_status = b.same_status ∙ k.same_status;
  own = omega (
    arith,
    waiting-skip v.task.id w.item r.items (gone_waits v.task.id w.item c.gone),
    waiting-take v.task.id v.item rest (due_waits v.task v.item d),
    ap (λ x. waiting x r.items) k.same_id,
    ap (λ x. waiting x rest) k.same_id,
    b.own,
    c.once,
  );
  others = λ id h.
      waiting-skip id w.item r.items (gone_waits id w.item c.gone)
      ∙ b.others id (ap (λ x. x == id) k.same_id ∙ h)
      ∙ sym (waiting-skip id v.item rest (other_waits id v.task v.item d h));
  emptied = λ h.
      waiting-skip v.task.id w.item r.items (gone_waits v.task.id w.item c.gone)
      ∙ ap (λ x. waiting x r.items) (sym k.same_id)
      ∙ b.emptied h;
}

module _ (outside : Outside) (payload_of : String → Option BatchTagTaskPayload) where
  abbrev processed : TaskRecord → TaskItemRecord → Pool → Work
  processed task item pool =
      process_task_item outside payload_of (record { task = task; item = item; pool = pool })

  pub run_items-Books :
      (items : List TaskItemRecord) (task : TaskRecord) (room : ℕ) (pool : Pool)
      → Books task items (run_items outside payload_of task items room pool)
  unfolding run_items
  run_items-Books [] task room pool = record {
    same_id = refl;
    same_total = refl;
    same_status = refl;
    own = refl;
    others = λ id h. refl;
    emptied = λ h. unfold waiting count in refl;
  }
  run_items-Books (item ∷ rest) task zero pool = idle-Books task (item ∷ rest) pool
  run_items-Books (item ∷ rest) task (suc room) pool = elim (Bool-cases (is_due task item)) [
    | inl d ↦ rw d (
        took-Books (record { task = task; item = item; pool = pool }) (processed task item pool)
          rest _ d (process_task_item-Counted outside payload_of _)
          (process_task_item-IsKept outside payload_of _)
          (run_items-Books rest (processed task item pool).task room
            (processed task item pool).pool))
    | inr d ↦ rw d (passed-Books task item rest _ d (run_items-Books rest task (suc room) pool))
  ]
