-- ===== src/Ops/Handlers/Task.antt =====
-- `opsTasksHandler` (its POST) and `opsTaskActionHandler` of customer_ops.go.
use jianghu_scrm.Prelude.{String, List, [], ◌∷◌, ◌==◌, ◌<>◌, if◌then◌else◌}
use jianghu_scrm.Utils.{first_non_empty}
use jianghu_scrm.Models.OpsWork.{OpsTask}
use jianghu_scrm.Ops.State.{World, Ops, stamp, pure, gets, modify, ◌>>=◌, ◌>>◌}
use jianghu_scrm.Ops.Find.{find_ops_task, write_task}
use jianghu_scrm.Ops.Journal.{add_ops_task_log}
use jianghu_scrm.Ops.Tasks.{create_ops_task}
use jianghu_scrm.Ops.TaskStatus.{set_ops_task_status}
use jianghu_scrm.Ops.Access.{Request, can_access_ops_task}
use jianghu_scrm.Ops.Http.{
  Reply, ok, err_not_found, Decoder, TaskNote, is_get, decoded, or_not_found,
}

module _ (world : World) (json : Decoder) where
  unfoldable pub create_task_action : Request → Ops (Reply OpsTask)
  create_task_action r =
      decoded (json.ops_task r.body)
        λ payload. do task ← create_ops_task world payload; pure (ok task)

  unfoldable pub assign_task : OpsTask → TaskNote → Ops OpsTask
  unfolding stamp first_non_empty
  assign_task task note = do
    now ← stamp world
    let task' = record task {
      assigned_to_user_id = first_non_empty (note.assigned_to_user ∷ task.assigned_to_user_id ∷ []);
      assigned_to_name = first_non_empty (note.assigned_to_name ∷ task.assigned_to_name ∷ []);
      updated_at = now;
    }
    modify (write_task task')
    add_ops_task_log world task.id "assign" task.status task.status
        ("任务转派给：" <> task'.assigned_to_name)
    pure task'

  abbrev answer : Ops OpsTask → Ops (Reply OpsTask)
  answer m = do task ← m; pure (ok task)

  unfoldable pub task_verb : OpsTask → String → TaskNote → Ops (Reply OpsTask)
  task_verb task verb note =
      if verb == "process"
      then answer (set_ops_task_status world task "processing" "开始处理任务" note.remark)
      else if verb == "complete"
      then answer (set_ops_task_status world task "completed" "完成任务" note.remark)
      else if verb == "assign"
      then answer (assign_task task note)
      else if verb == "ignore"
      then answer (set_ops_task_status world task "ignored" "忽略任务" note.remark)
      else pure err_not_found

  unfoldable pub task_action : Request → OpsTask → List String → Ops (Reply OpsTask)
  task_action r task [] = if is_get r.method then pure (ok task) else pure err_not_found
  task_action r task (verb ∷ _) = task_verb task verb (json.task_note r.body)

  unfoldable pub ops_task_action_handler : Request → List String → Ops (Reply OpsTask)
  ops_task_action_handler r [] = pure err_not_found
  ops_task_action_handler r (task_id ∷ parts) = do
    found ← gets (find_ops_task task_id)
    or_not_found found
        λ task. if can_access_ops_task r task then task_action r task parts else pure err_not_found
