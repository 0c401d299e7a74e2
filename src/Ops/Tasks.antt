-- ===== src/Ops/Tasks.antt =====
-- `createOpsTaskLocked` of customer_ops.go.
use jianghu_scrm.Prelude.{Option, none, some, [], ◌∷◌}
use jianghu_scrm.Utils.{first_non_empty}
use jianghu_scrm.Models.OpsCustomers.{OpsCustomer}
use jianghu_scrm.Models.OpsWork.{OpsTask}
use jianghu_scrm.Ops.State.{World, Ops, new_id, stamp, pure, gets, modify, ◌>>=◌, ◌>>◌}
use jianghu_scrm.Ops.Find.{find_ops_customer}
use jianghu_scrm.Ops.Journal.{
  ops_operator_id, ops_operator_name, add_ops_task_log, add_ops_timeline,
}

-- `OpsTask{}`
abbrev pub empty_task : OpsTask
empty_task = record {
  id = "";
  task_type = "";
  title = "";
  description = "";
  customer_id = "";
  customer_name = "";
  region_id = "";
  region_name = "";
  store_id = "";
  store_name = "";
  assigned_to_user_id = "";
  assigned_to_name = "";
  assigned_to_role = "";
  priority = "";
  status = "";
  due_time = "";
  completed_at = "";
  source = "";
  created_at = "";
  updated_at = "";
}

-- What a task takes over from its customer.
unfoldable pub take_over : Option OpsCustomer → OpsTask → OpsTask
unfolding first_non_empty
take_over none task = task
take_over (some c) task = record task {
  customer_name = c.name;
  region_id = c.region_id;
  region_name = c.region_name;
  store_id = c.store_id;
  store_name = c.store_name;
  assigned_to_user_id = first_non_empty (task.assigned_to_user_id ∷ c.owner_guide_id ∷ []);
  assigned_to_name = first_non_empty (task.assigned_to_name ∷ c.owner_guide_name ∷ []);
}

module _ (world : World) where
  unfoldable pub note_task : Option OpsCustomer → OpsTask → Ops Unit
  note_task none task = pure tt
  note_task (some c) task =
      add_ops_timeline world c.id "task" "生成SOP任务" task.title task.id ops_operator_id
        ops_operator_name

  unfoldable pub create_ops_task : OpsTask → Ops OpsTask
  unfolding new_id stamp first_non_empty
  create_ops_task payload = do
    found ← gets (find_ops_customer payload.customer_id)
    let owned = take_over found payload
    id ← new_id world "ot"
    created_at ← stamp world
    let task = record owned {
      id = id;
      priority = first_non_empty (owned.priority ∷ "P1" ∷ []);
      status = first_non_empty (owned.status ∷ "pending" ∷ []);
      source = first_non_empty (owned.source ∷ "总部派发" ∷ []);
      assigned_to_role = first_non_empty (owned.assigned_to_role ∷ "guide" ∷ []);
      created_at = created_at;
      updated_at = created_at;
    }
    modify (λ s. record s { ops_tasks = task ∷ s.ops_tasks })
    note_task found task
    add_ops_task_log world task.id "create" "" task.status task.source
    pure task
