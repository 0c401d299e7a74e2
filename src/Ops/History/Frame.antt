-- ===== src/Ops/History/Frame.antt =====
-- What the operations leave alone: the customers and the lifecycle logs.
use jianghu_scrm.Prelude.{String, refl, List, Option, some, ◌∷◌, [], none}
use jianghu_scrm.Models.OpsCustomers.{OpsCustomer, OpsLifecycleLog}
use jianghu_scrm.Ops.State.{World, Ops, OpsState, new_id, stamp, ◌>>=◌}
use jianghu_scrm.Ops.Ensures.{Keeps, keeps_rules, Keeps-bind}
use jianghu_scrm.Ops.Journal.{add_ops_timeline, add_ops_task_log}
use jianghu_scrm.Ops.Exceptions.{
  ensure_ops_exception, check_task, refresh_ops_exceptions, add_exception,
  resolve_ops_exception_by_task, for_each, check_customer, resolve_rows,
}
use jianghu_scrm.Ops.Stage.{ensure_revisit}
use jianghu_scrm.Ops.Tasks.{create_ops_task, note_task}
use jianghu_scrm.Models.OpsWork.{OpsException, OpsTask}

pub Keeps-for_each :
    {A B : Type 0} {f : OpsState → B} (body : A → Ops Unit) (rows : List A)
    → ((a : A) → Keeps f (body a))
    → Keeps f (for_each body rows)
unfolding for_each
Keeps-for_each body [] h = search keeps_rules
Keeps-for_each body (row ∷ rows) h = Keeps-bind _ _ (h row) (λ _. Keeps-for_each body rows h)

-- What the invariant looks at.
abbrev pub stages : OpsState → List OpsCustomer × List OpsLifecycleLog
stages s = (s.ops_customers, s.ops_lifecycle_logs)

module _ (world : World) where
  pub new_id-stages : (prefix : String) → Keeps stages (new_id world prefix)
  unfolding new_id
  new_id-stages prefix = record { at = λ s. refl }

  pub stamp-stages : Keeps stages (stamp world)
  unfolding stamp
  stamp-stages = record { at = λ s. refl }

  pub add_ops_timeline-stages :
      (a b c d e f g : String) → Keeps stages (add_ops_timeline world a b c d e f g)
  unfolding add_ops_timeline ◌>>=◌
  add_ops_timeline-stages a b c d e f g = record { at = λ s. refl }

  pub add_ops_task_log-stages :
      (a b c d e : String) → Keeps stages (add_ops_task_log world a b c d e)
  unfolding add_ops_task_log ◌>>=◌
  add_ops_task_log-stages a b c d e = record { at = λ s. refl }

  note_task-stages : (o : Option OpsCustomer) (t : OpsTask) → Keeps stages (note_task world o t)
  unfolding note_task
  note_task-stages none t = search keeps_rules
  note_task-stages (some c) t = search add_ops_timeline-stages

  pub create_ops_task-stages : (payload : OpsTask) → Keeps stages (create_ops_task world payload)
  unfolding create_ops_task
  create_ops_task-stages payload =
      search (keeps_rules, new_id-stages, stamp-stages, note_task-stages, add_ops_task_log-stages)
        depth 12

  pub ensure_revisit-stages :
      (c : OpsCustomer) (stage : String) → Keeps stages (ensure_revisit world c stage)
  unfolding ensure_revisit
  ensure_revisit-stages c stage = search (keeps_rules, create_ops_task-stages)

  add_exception-stages :
      (a b c d e f g h : String) → Keeps stages (add_exception world a b c d e f g h)
  unfolding add_exception ◌>>=◌
  add_exception-stages a b c d e f g h = record { at = λ s. refl }

  ensure_ops_exception-stages :
      (a b c d e f g h : String) → Keeps stages (ensure_ops_exception world a b c d e f g h)
  unfolding ensure_ops_exception
  ensure_ops_exception-stages a b c d e f g h = search (keeps_rules, add_exception-stages)

  check_task-stages : (t : OpsTask) → Keeps stages (check_task world t)
  unfolding check_task
  check_task-stages t = search (keeps_rules, ensure_ops_exception-stages)

  check_customer-stages : (c : OpsCustomer) → Keeps stages (check_customer world c)
  unfolding check_customer
  check_customer-stages c = search (keeps_rules, ensure_ops_exception-stages)

  pub refresh_ops_exceptions-stages : Keeps stages (refresh_ops_exceptions world)
  unfolding refresh_ops_exceptions
  refresh_ops_exceptions-stages =
      search (keeps_rules, Keeps-for_each, check_task-stages, check_customer-stages)

  resolve_rows-stages :
      (task_id : String) (rows : List OpsException) → Keeps stages (resolve_rows world task_id rows)
  unfolding resolve_rows
  resolve_rows-stages task_id [] = search keeps_rules
  resolve_rows-stages task_id (item ∷ rest) =
      Keeps-bind _ _ (search (keeps_rules, stamp-stages))
        λ item'. Keeps-bind _ _ (resolve_rows-stages task_id rest) (λ rest'. search keeps_rules)

  pub resolve_ops_exception_by_task-stages :
      (task_id : String) → Keeps stages (resolve_ops_exception_by_task world task_id)
  unfolding resolve_ops_exception_by_task
  resolve_ops_exception_by_task-stages task_id = search (keeps_rules, resolve_rows-stages)

  pub ruleset stages_rules = (
    keeps_rules, new_id-stages, stamp-stages, add_ops_timeline-stages, add_ops_task_log-stages,
    create_ops_task-stages, ensure_revisit-stages, refresh_ops_exceptions-stages,
    resolve_ops_exception_by_task-stages,
  )
