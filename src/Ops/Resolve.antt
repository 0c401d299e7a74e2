-- ===== src/Ops/Resolve.antt =====
-- What the completion of a task does to its exceptions.
use jianghu_scrm.Prelude.{
  String, Bool, true, List, [], ◌∷◌, ◌≡◌, refl, ap, ◌||◌, ◌==◌, not, all, inl, inr, Bool-cases, ◌∙◌,
  if◌then◌else◌, Option, some, none, false,
}
use jianghu_scrm.Utils.{filter}
use jianghu_scrm.Models.OpsWork.{OpsException, OpsTask}
use jianghu_scrm.Ops.State.{World, OpsState, ◌>>=◌, new_id, stamp, modify, pure, Ops}
use jianghu_scrm.Ops.Exceptions.{resolve_rows, resolve_ops_exception_by_task}
use jianghu_scrm.Ops.Journal.{add_ops_timeline, add_ops_task_log}
use jianghu_scrm.Ops.Ensures.{keeps_rules, Keeps, Keeps-modify}
use jianghu_scrm.Ops.Stage.{change_ops_customer_stage, ensure_revisit}
use jianghu_scrm.Ops.TaskStatus.{set_ops_task_status, tell_customer, move_customer}
use jianghu_scrm.Ops.Tasks.{create_ops_task, note_task}
use jianghu_scrm.Ops.Find.{write_customer, write_task}
use jianghu_scrm.Models.OpsCustomers.{OpsCustomer}

-- An exception of another task, or one that is resolved.
unfoldable pub is_settled : String → OpsException → Bool
is_settled task_id e = not (e.task_id == task_id) || e.status == "resolved"

unfoldable pub is_foreign : String → OpsException → Bool
is_foreign task_id e = not (e.task_id == task_id)

abbrev exceptions : OpsState → List OpsException
exceptions s = s.ops_exceptions

module _ (world : World) where
  resolve_rows-settled :
      (task_id : String) (rows : List OpsException) (s : OpsState)
      → all (is_settled task_id) (resolve_rows world task_id rows s).0 ≡ true
  unfolding resolve_rows ◌>>=◌ all is_settled
  resolve_rows-settled task_id [] s = refl
  resolve_rows-settled task_id (e ∷ rows) s = elim (Bool-cases (e.task_id == task_id)) [
    | inl t ↦ elim (Bool-cases (e.status == "resolved")) [
      | inl r ↦ rw (t, r, t, r) (resolve_rows-settled task_id rows s)
      | inr r ↦ rw (t, r, t) (resolve_rows-settled task_id rows _)
    ]
    | inr t ↦ rw (t, t) (resolve_rows-settled task_id rows s)
  ]

  resolve_rows-foreign :
      (task_id : String) (rows : List OpsException) (s : OpsState)
      → filter (is_foreign task_id) (resolve_rows world task_id rows s).0
        ≡ filter (is_foreign task_id) rows
  unfolding resolve_rows ◌>>=◌ filter is_foreign
  resolve_rows-foreign task_id [] s = refl
  resolve_rows-foreign task_id (e ∷ rows) s = elim (Bool-cases (e.task_id == task_id)) [
    | inl t ↦ elim (Bool-cases (e.status == "resolved")) [
      | inl r ↦ rw (t, r, t) (resolve_rows-foreign task_id rows s)
      | inr r ↦ rw (t, r, t) (resolve_rows-foreign task_id rows _)
    ]
    | inr t ↦ rw (t, t) (ap (λ xs. e ∷ xs) (resolve_rows-foreign task_id rows s))
  ]

  new_id-exceptions : (prefix : String) → Keeps exceptions (new_id world prefix)
  unfolding new_id
  new_id-exceptions prefix = record { at = λ s. refl }

  stamp-exceptions : Keeps exceptions (stamp world)
  unfolding stamp
  stamp-exceptions = record { at = λ s. refl }

  add_ops_timeline-exceptions :
      (a b c d e f g : String) → Keeps exceptions (add_ops_timeline world a b c d e f g)
  unfolding add_ops_timeline ◌>>=◌
  add_ops_timeline-exceptions a b c d e f g = record { at = λ s. refl }

  add_ops_task_log-exceptions :
      (a b c d e : String) → Keeps exceptions (add_ops_task_log world a b c d e)
  unfolding add_ops_task_log ◌>>=◌
  add_ops_task_log-exceptions a b c d e = record { at = λ s. refl }

  ruleset quiet_rules = (
    keeps_rules, new_id-exceptions, stamp-exceptions, add_ops_timeline-exceptions,
    add_ops_task_log-exceptions,
  )

  note_task-exceptions :
      (o : Option OpsCustomer) (t : OpsTask) → Keeps exceptions (note_task world o t)
  unfolding note_task
  note_task-exceptions none t = search keeps_rules
  note_task-exceptions (some c) t = search add_ops_timeline-exceptions

  create_ops_task-exceptions :
      (payload : OpsTask) → Keeps exceptions (create_ops_task world payload)
  unfolding create_ops_task
  create_ops_task-exceptions payload = search (quiet_rules, note_task-exceptions) depth 12

  ensure_revisit-exceptions :
      (c : OpsCustomer) (stage : String) → Keeps exceptions (ensure_revisit world c stage)
  unfolding ensure_revisit
  ensure_revisit-exceptions c stage = search (quiet_rules, create_ops_task-exceptions)

  write_customer-exceptions : (c : OpsCustomer) → Keeps exceptions (modify (write_customer c))
  unfolding write_customer
  write_customer-exceptions c = Keeps-modify _ (λ s. refl)

  write_task-exceptions : (t : OpsTask) → Keeps exceptions (modify (write_task t))
  unfolding write_task
  write_task-exceptions t = Keeps-modify _ (λ s. refl)

  change_ops_customer_stage-exceptions :
      (c : OpsCustomer) (a b d e : String)
      → Keeps exceptions (change_ops_customer_stage world c a b d e)
  unfolding change_ops_customer_stage
  change_ops_customer_stage-exceptions c a b d e =
      search (quiet_rules, write_customer-exceptions, ensure_revisit-exceptions) depth 12

  tell_customer-exceptions :
      (task : OpsTask) (a b c : String) (o : Option OpsCustomer)
      → Keeps exceptions (tell_customer world task a b c o)
  unfolding tell_customer move_customer
  tell_customer-exceptions task a b c none = search keeps_rules
  tell_customer-exceptions task a b c (some x) =
      search (quiet_rules, write_customer-exceptions, change_ops_customer_stage-exceptions) depth 12

  -- The exceptions that a status change leaves are those that its last step makes of the old ones.
  abbrev last_step : OpsTask → String → OpsState → OpsState
  last_step task status s =
      ((if status == "completed" then resolve_ops_exception_by_task world task.id else pure tt) s).1

  before_last :
      (task : OpsTask) (status action remark : String) (s : OpsState)
      → (u : OpsState) × ((exceptions u ≡ exceptions s)
          × ((set_ops_task_status world task status action remark s).1 ≡ last_step task status u))
  unfolding set_ops_task_status ◌>>=◌
  before_last task status action remark s = (
    _,
    (
      (tell_customer-exceptions _ _ _ _ _).at _
          ∙ (add_ops_task_log-exceptions _ _ _ _ _).at _
          ∙ (write_task-exceptions _).at _
          ∙ stamp-exceptions.at s,
      refl,
    ),
  )

  abbrev resolved : String → OpsState → OpsState
  resolved task_id u = (resolve_ops_exception_by_task world task_id u).1

  -- Once a task is set to "completed", each of its exceptions is resolved, and the exceptions of
  -- other tasks are the old ones in the old order.
  pub set_ops_task_status-resolves :
      (task : OpsTask) (action remark : String) (s : OpsState)
      → (all
            (is_settled task.id)
            (set_ops_task_status world task "completed" action remark s).1.ops_exceptions
          ≡ true)
        × (filter
              (is_foreign task.id)
              (set_ops_task_status world task "completed" action remark s).1.ops_exceptions
            ≡ filter (is_foreign task.id) s.ops_exceptions)
  unfolding resolve_ops_exception_by_task ◌>>=◌
  set_ops_task_status-resolves task action remark s =
      let (u, (same, last)) = before_last task "completed" action remark s in
      (
        ap (λ w. all (is_settled task.id) w.ops_exceptions) last
            ∙ resolve_rows-settled task.id u.ops_exceptions u,
        ap (λ w. filter (is_foreign task.id) w.ops_exceptions) last
            ∙ resolve_rows-foreign task.id u.ops_exceptions u
            ∙ ap (filter (is_foreign task.id)) same,
      )

  skip : (b : Bool) (m : Ops Unit) (u : OpsState) → b ≡ false → ((if b then m else pure tt) u).1 ≡ u
  unfolding pure
  skip true m u e = cc
  skip false m u e = refl

  -- A status other than "completed" leaves every exception as it is.
  pub set_ops_task_status-exceptions :
      (task : OpsTask) (status action remark : String) (s : OpsState)
      → (status == "completed") ≡ false
      → (set_ops_task_status world task status action remark s).1.ops_exceptions ≡ s.ops_exceptions
  set_ops_task_status-exceptions task status action remark s e =
      let (u, (same, last)) = before_last task status action remark s in
      ap exceptions last ∙ ap exceptions (skip _ _ u e) ∙ same
