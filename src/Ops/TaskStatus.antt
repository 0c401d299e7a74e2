-- ===== src/Ops/TaskStatus.antt =====
-- `setOpsTaskStatusLocked` of customer_ops.go. The last stage change that it can make is to
-- "following", which creates no task, so the pointer into the tasks stays good.
use jianghu_scrm.Prelude.{String, Option, none, some, [], ◌∷◌, ◌==◌, ◌&&◌, ◌<>◌, if◌then◌else◌}
use jianghu_scrm.Utils.{first_non_empty}
use jianghu_scrm.Models.OpsCustomers.{OpsCustomer}
use jianghu_scrm.Models.OpsWork.{OpsTask}
use jianghu_scrm.Ops.State.{World, Ops, stamp, pure, gets, modify, ◌>>=◌, ◌>>◌}
use jianghu_scrm.Ops.Find.{find_ops_customer, write_customer, write_task}
use jianghu_scrm.Ops.Journal.{ops_operator_name, add_ops_task_log, add_ops_timeline}
use jianghu_scrm.Ops.Stage.{change_ops_customer_stage}
use jianghu_scrm.Ops.Exceptions.{resolve_ops_exception_by_task}

abbrev pub first_follow : String
first_follow = "新客户首次跟进"

-- The task as the status change leaves it.
unfoldable pub with_status : OpsTask → String → String → OpsTask
with_status task status now = record task {
  status = status;
  completed_at = if status == "completed" then now else task.completed_at;
  updated_at = now;
}

module _ (world : World) where
  unfoldable pub move_customer : OpsTask → String → OpsCustomer → Ops OpsCustomer
  move_customer task status customer =
      if status == "completed"
        && task.task_type == first_follow
        && customer.lifecycle_stage == "first_follow_pending"
      then change_ops_customer_stage world customer "following" "首次跟进任务完成" task.assigned_to_user_id
          task.assigned_to_name
      else pure customer

  unfoldable pub tell_customer : OpsTask → String → String → String → Option OpsCustomer → Ops Unit
  unfolding stamp first_non_empty
  tell_customer task status action remark none = pure tt
  tell_customer task status action remark (some customer) = do
    let content = first_non_empty (remark ∷ task.description ∷ [])
    add_ops_timeline world customer.id "task" (action <> "：" <> task.title) content task.id
        task.assigned_to_user_id (first_non_empty (task.assigned_to_name ∷ ops_operator_name ∷ []))
    moved ← move_customer task status customer
    last_follow_up_time ← stamp world
    updated_at ← stamp world
    modify (
        write_customer
          (record moved { last_follow_up_time = last_follow_up_time; updated_at = updated_at }))

  unfoldable pub set_ops_task_status : OpsTask → String → String → String → Ops OpsTask
  unfolding stamp
  set_ops_task_status task status action remark = do
    let old = task.status
    now ← stamp world
    let task' = with_status task status now
    modify (write_task task')
    add_ops_task_log world task.id action old status remark
    found ← gets (find_ops_customer task.customer_id)
    tell_customer task' status action remark found
    if status == "completed" then resolve_ops_exception_by_task world task.id else pure tt
    pure task'
