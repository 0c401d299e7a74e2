-- ===== src/Ops/Refresh/Again.antt =====
-- The refresh as a whole.
use jianghu_scrm.Prelude.{String, true, List, ◌≡◌, refl, ap, ◌∙◌, all}
use jianghu_scrm.Models.OpsCustomers.{OpsCustomer}
use jianghu_scrm.Models.OpsWork.{OpsTask}
use jianghu_scrm.Ops.State.{World, OpsState, ◌>>=◌}
use jianghu_scrm.Ops.Ensures.{Keeps, keeps_rules}
use jianghu_scrm.Ops.Exceptions.{
  for_each, add_exception, ensure_ops_exception, check_task, check_customer, refresh_ops_exceptions,
}
use jianghu_scrm.Ops.Refresh.Cover.{
  customer_covered, Grows, task_covered, check_customer-Grows, check_task-Grows,
  check_customer-covered, check_task-covered, task_covered-Grows, customer_covered-Grows,
  check_customer-same, check_task-same,
}
use jianghu_scrm.Ops.History.Frame.{Keeps-for_each}
use jianghu_scrm.Ops.Refresh.Loop.{for_each-Grows, for_each-covered, for_each-same, all-Grows}

-- What the refresh reads.
abbrev read : OpsState → List OpsTask × List OpsCustomer
read s = (s.ops_tasks, s.ops_customers)

module _ (world : World) where
  add_exception-read : (a b c d e f g h : String) → Keeps read (add_exception world a b c d e f g h)
  unfolding add_exception ◌>>=◌
  add_exception-read a b c d e f g h = record { at = λ s. refl }

  ensure_ops_exception-read :
      (a b c d e f g h : String) → Keeps read (ensure_ops_exception world a b c d e f g h)
  unfolding ensure_ops_exception
  ensure_ops_exception-read a b c d e f g h = search (keeps_rules, add_exception-read)

  check_task-read : (t : OpsTask) → Keeps read (check_task world t)
  unfolding check_task
  check_task-read t = search (keeps_rules, ensure_ops_exception-read)

  check_customer-read : (c : OpsCustomer) → Keeps read (check_customer world c)
  unfolding check_customer
  check_customer-read c = search (keeps_rules, ensure_ops_exception-read)

  tasks-read : (rows : List OpsTask) → Keeps read (for_each (check_task world) rows)
  tasks-read rows = search (Keeps-for_each, check_task-read)

  customers-read : (rows : List OpsCustomer) → Keeps read (for_each (check_customer world) rows)
  customers-read rows = search (Keeps-for_each, check_customer-read)

  abbrev after_tasks : OpsState → OpsState
  after_tasks s = (for_each (check_task world) s.ops_tasks s).1

  after_tasks-read : (s : OpsState) → read (after_tasks s) ≡ read s
  after_tasks-read s = (tasks-read s.ops_tasks).at s

  abbrev after_both : OpsState → OpsState
  after_both s = (for_each (check_customer world) (after_tasks s).ops_customers (after_tasks s)).1

  after_both-read : (s : OpsState) → read (after_both s) ≡ read s
  after_both-read s =
      (customers-read (after_tasks s).ops_customers).at (after_tasks s) ∙ after_tasks-read s

  tasks_loop-covered : (s : OpsState) → all (task_covered (after_tasks s)) s.ops_tasks ≡ true
  tasks_loop-covered s =
      for_each-covered (check_task world) task_covered (check_task-Grows world)
        (check_task-covered world) task_covered-Grows (check_task-same world) s.ops_tasks s

  both-Grows : (s : OpsState) → Grows (after_tasks s) (after_both s)
  both-Grows s =
      for_each-Grows (check_customer world) customer_covered (check_customer-Grows world)
        (check_customer-covered world) customer_covered-Grows (check_customer-same world)
        (after_tasks s).ops_customers (after_tasks s)

  both-tasks : (s : OpsState) → all (task_covered (after_both s)) (after_both s).ops_tasks ≡ true
  both-tasks s = rw (ap (λ p. p.0) (after_both-read s)) (
      all-Grows (check_task world) task_covered (check_task-Grows world) (check_task-covered world)
        task_covered-Grows (check_task-same world) s.ops_tasks (after_tasks s) (after_both s)
        (both-Grows s) (tasks_loop-covered s))

  both-customers :
      (s : OpsState) → all (customer_covered (after_both s)) (after_both s).ops_customers ≡ true
  both-customers s =
      rw (ap (λ p. p.1) ((customers-read (after_tasks s).ops_customers).at (after_tasks s))) (
        for_each-covered (check_customer world) customer_covered (check_customer-Grows world)
          (check_customer-covered world) customer_covered-Grows (check_customer-same world)
          (after_tasks s).ops_customers (after_tasks s))

  -- where all is covered the two loops do nothing
  idle :
      (s : OpsState)
      → all (task_covered s) s.ops_tasks ≡ true
      → all (customer_covered s) s.ops_customers ≡ true
      → after_both s ≡ s
  idle s t c =
      ap (λ u. (for_each (check_customer world) u.ops_customers u).1)
        (for_each-same (check_task world) task_covered (check_task-Grows world)
          (check_task-covered world) task_covered-Grows (check_task-same world) s.ops_tasks s t)
      ∙ for_each-same (check_customer world) customer_covered (check_customer-Grows world)
          (check_customer-covered world) customer_covered-Grows (check_customer-same world)
          s.ops_customers s c

  -- After a refresh every task whose status is "overdue" has an open exception "task_overdue" of its
  -- customer and itself, every customer in the stage "first_follow_pending" an open exception
  -- "first_follow_timeout", and every customer in the stage "dormant" an open "customer_dormant".
  pub refresh_ops_exceptions-covers :
      (s : OpsState)
      → (all
            (task_covered (refresh_ops_exceptions world s).1)
            (refresh_ops_exceptions world s).1.ops_tasks
          ≡ true)
        × (all
              (customer_covered (refresh_ops_exceptions world s).1)
              (refresh_ops_exceptions world s).1.ops_customers
            ≡ true)
  unfolding refresh_ops_exceptions ◌>>=◌
  refresh_ops_exceptions-covers s = (both-tasks s, both-customers s)

  -- A refresh right after a refresh changes nothing: no exception is added, no identifier is drawn and
  -- the clock is not read.
  pub refresh_ops_exceptions-again :
      (s : OpsState)
      → (refresh_ops_exceptions world (refresh_ops_exceptions world s).1).1
        ≡ (refresh_ops_exceptions world s).1
  unfolding refresh_ops_exceptions ◌>>=◌
  refresh_ops_exceptions-again s = idle (after_both s) (both-tasks s) (both-customers s)
