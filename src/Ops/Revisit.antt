-- ===== src/Ops/Revisit.antt =====
-- The revisit task that a high intention calls for.
use jianghu_scrm.Prelude.{
  ℕ, ◌+◌, String, Bool, true, false, Option, none, some, List, [], ◌∷◌, ◌≡◌, refl, ap, ◌∙◌, ◌==◌,
  ◌&&◌, not, any, count, arith, eq_refl, if◌then◌else◌,
}
use jianghu_scrm.Models.OpsCustomers.{OpsCustomer}
use jianghu_scrm.Models.OpsWork.{OpsTask}
use jianghu_scrm.Ops.State.{World, OpsState, ◌>>=◌, pure}
use jianghu_scrm.Ops.Ensures.{Keeps, keeps_rules}
use jianghu_scrm.Ops.Find.{is_open_task, has_open_ops_task, find_ops_customer, write_customer}
use jianghu_scrm.Ops.Journal.{add_ops_timeline, add_ops_task_log}
use jianghu_scrm.Ops.Tasks.{take_over, note_task, create_ops_task}
use jianghu_scrm.Ops.Stage.{revisit, revisit_task, ensure_revisit, change_ops_customer_stage}
use jianghu_scrm.Utils.{first_non_empty}

abbrev tasks : OpsState → List OpsTask
tasks s = s.ops_tasks

-- How many tasks of the type are open for the customer.
unfoldable pub open_tasks : String → String → OpsState → ℕ
open_tasks customer_id task_type s = count (is_open_task customer_id task_type) s.ops_tasks

any_none : {A : Type 0} (p : A → Bool) (xs : List A) → any p xs ≡ false → count p xs ≡ 0
unfolding any count
any_none p [] h = refl
any_none p (x ∷ xs) h = ground (arith, any_none p xs)

module _ (world : World) where
  add_ops_timeline-tasks :
      (a b c d e f g : String) → Keeps tasks (add_ops_timeline world a b c d e f g)
  unfolding add_ops_timeline ◌>>=◌
  add_ops_timeline-tasks a b c d e f g = record { at = λ s. refl }

  add_ops_task_log-tasks : (a b c d e : String) → Keeps tasks (add_ops_task_log world a b c d e)
  unfolding add_ops_task_log ◌>>=◌
  add_ops_task_log-tasks a b c d e = record { at = λ s. refl }

  note_task-tasks : (o : Option OpsCustomer) (t : OpsTask) → Keeps tasks (note_task world o t)
  unfolding note_task
  note_task-tasks none t = search keeps_rules
  note_task-tasks (some c) t = search add_ops_timeline-tasks

  -- A new task stands in front of the old ones, which stay as they are.
  create_ops_task-tasks :
      (payload : OpsTask) (s : OpsState)
      → (create_ops_task world payload s).1.ops_tasks
        ≡ (create_ops_task world payload s).0 ∷ s.ops_tasks
  unfolding create_ops_task ◌>>=◌
  create_ops_task-tasks payload s =
      (add_ops_task_log-tasks _ _ _ _ _).at _ ∙ (note_task-tasks _ _).at _

  taken :
      (o : Option OpsCustomer) (t : OpsTask)
      → ((take_over o t).customer_id ≡ t.customer_id)
        × ((take_over o t).task_type ≡ t.task_type)
        × ((take_over o t).status ≡ t.status)
  unfolding take_over
  taken none t = (refl, refl, refl)
  taken (some c) t = (refl, refl, refl)

  -- the task that is created is open
  new_revisit-open :
      (c : OpsCustomer) (s : OpsState)
      → is_open_task c.id revisit (create_ops_task world (revisit_task c) s).0 ≡ true
  unfolding create_ops_task ◌>>=◌ is_open_task first_non_empty
  new_revisit-open c s = rw (
    (taken (find_ops_customer c.id s) (revisit_task c)).0,
    (taken (find_ops_customer c.id s) (revisit_task c)).1,
    (taken (find_ops_customer c.id s) (revisit_task c)).2,
    eq_refl c.id,
  )

  revisiting :
      (b : Bool) (c : OpsCustomer) (s : OpsState)
      → open_tasks c.id revisit
          ((if b then (do _ ← create_ops_task world (revisit_task c); pure tt) else pure tt) s).1
        ≡ open_tasks c.id revisit s + (if b then 1 else 0)
  unfolding ◌>>=◌ open_tasks count
  revisiting true c s =
      ap (count (is_open_task c.id revisit)) (create_ops_task-tasks (revisit_task c) s)
      ∙ ground (arith, new_revisit-open c s)
  revisiting false c s = omega arith

  ensure_revisit-count :
      (c : OpsCustomer) (stage : String) (s : OpsState)
      → open_tasks c.id revisit (ensure_revisit world c stage s).1
        ≡ open_tasks c.id revisit s
          + (if stage == "high_intent" && not (has_open_ops_task c.id revisit s) then 1 else 0)
  unfolding ensure_revisit ◌>>=◌
  ensure_revisit-count c stage s = revisiting _ c s

  -- everything before the last step of the stage change leaves the tasks
  before_revisit :
      (c : OpsCustomer) (stage reason operator_id operator_name : String) (s : OpsState)
      → (u : OpsState) × ((tasks u ≡ tasks s)
          × ((change_ops_customer_stage world c stage reason operator_id operator_name s).1
              ≡ (ensure_revisit world
                  (change_ops_customer_stage world c stage reason operator_id operator_name s).0
                  stage
                  u).1))
  unfolding change_ops_customer_stage ◌>>=◌ write_customer
  before_revisit c stage reason operator_id operator_name s =
      (_, ((add_ops_timeline-tasks _ _ _ _ _ _ _).at _, refl))

  moved_id :
      (c : OpsCustomer) (stage reason operator_id operator_name : String) (s : OpsState)
      → (change_ops_customer_stage world c stage reason operator_id operator_name s).0.id ≡ c.id
  unfolding change_ops_customer_stage ◌>>=◌
  moved_id c stage reason operator_id operator_name s = refl

  revisit-once :
      (c d : OpsCustomer) (stage : String) (s u : OpsState)
      → d.id ≡ c.id
      → tasks u ≡ tasks s
      → open_tasks c.id revisit (ensure_revisit world d stage u).1 ≡ (
          if stage == "high_intent" && not (has_open_ops_task c.id revisit s)
          then 1
          else open_tasks c.id revisit s)
  unfolding open_tasks has_open_ops_task
  revisit-once c d stage s u id same = rw (← id) (
      ensure_revisit-count d stage u
      ∙ rw same (ground (arith, any_none (is_open_task d.id revisit) s.ops_tasks)))

  -- A stage change to "high_intent" of a customer with no open revisit task leaves it exactly one,
  -- and one with open revisit tasks as many as it had; any other stage change leaves their number.
  pub change_ops_customer_stage-revisit :
      (c : OpsCustomer) (stage reason operator_id operator_name : String) (s : OpsState)
      → open_tasks c.id revisit
          (change_ops_customer_stage world c stage reason operator_id operator_name s).1
        ≡ (if stage == "high_intent" && not (has_open_ops_task c.id revisit s)
            then 1
            else open_tasks c.id revisit s)
  change_ops_customer_stage-revisit c stage reason operator_id operator_name s =
      let (u, (same, last)) = before_revisit c stage reason operator_id operator_name s in
      ap (open_tasks c.id revisit) last
      ∙ revisit-once c _ stage s u (moved_id c stage reason operator_id operator_name s) same
