-- ===== src/Ops/Stage.antt =====
-- `changeOpsCustomerStageLocked` and `opsStageLabel` of customer_ops.go. A function that writes
-- through a pointer takes the value that the pointer has and returns the value that it leaves there.
use jianghu_scrm.Prelude.{String, not, List, [], ◌∷◌, ◌==◌, ◌&&◌, ◌<>◌, if◌then◌else◌}
use jianghu_scrm.Utils.{first_non_empty}
use jianghu_scrm.Models.OpsCustomers.{OpsCustomer}
use jianghu_scrm.Models.OpsWork.{OpsTask}
use jianghu_scrm.Ops.State.{World, Ops, new_id, stamp, pure, gets, modify, ◌>>=◌, ◌>>◌}
use jianghu_scrm.Ops.Find.{has_open_ops_task, write_customer}
use jianghu_scrm.Ops.Journal.{ops_operator_id, ops_operator_name, add_ops_timeline}
use jianghu_scrm.Ops.Tasks.{empty_task, create_ops_task}

abbrev pub revisit : String
revisit = "高意向客户回访"

abbrev stage_labels : List (String × String)
stage_labels =
    ("new_lead", "新线索")
    ∷ ("added_wecom", "已加企微")
    ∷ ("pending_assignment", "待分配")
    ∷ ("assigned", "已分配")
    ∷ ("first_follow_pending", "待首次跟进")
    ∷ ("following", "跟进中")
    ∷ ("high_intent", "高意向")
    ∷ ("purchased", "已成交")
    ∷ ("repurchase", "复购客户")
    ∷ ("dormant", "沉睡客户")
    ∷ ("lost", "流失客户")
    ∷ ("blocked", "黑名单")
    ∷ []

-- `labels[stage]`, which is "" for a missing key
label_of : String → List (String × String) → String
label_of stage [] = ""
label_of stage ((key, label) ∷ labels) = if key == stage then label else label_of stage labels

unfoldable pub ops_stage_label : String → String
unfolding label_of first_non_empty
ops_stage_label stage = first_non_empty (label_of stage stage_labels ∷ stage ∷ [])

-- The task that a high intention calls for.
abbrev pub revisit_task : OpsCustomer → OpsTask
revisit_task customer = record empty_task {
  task_type = revisit;
  title = "24小时内回访" <> customer.name;
  description = "客户被标记为高意向，自动生成回访任务。";
  customer_id = customer.id;
  priority = "P1";
  due_time = "2026-07-07 18:00";
  source = "阶段流转";
}

module _ (world : World) where
  unfoldable pub ensure_revisit : OpsCustomer → String → Ops Unit
  ensure_revisit customer stage = do
    open_task ← gets (has_open_ops_task customer.id revisit)
    if stage == "high_intent" && not open_task
        then (do _ ← create_ops_task world (revisit_task customer); pure tt)
        else pure tt

  unfoldable pub change_ops_customer_stage :
      OpsCustomer → String → String → String → String → Ops OpsCustomer
  unfolding new_id stamp first_non_empty
  change_ops_customer_stage customer stage reason operator_id operator_name = do
    let before = customer.lifecycle_stage
    now ← stamp world
    let changed = record customer {
      lifecycle_stage = stage;
      status = ops_stage_label stage;
      updated_at = now;
    }
    modify (write_customer changed)
    id ← new_id world "cl"
    created_at ← stamp world
    let who = first_non_empty (operator_id ∷ ops_operator_id ∷ [])
    let name = first_non_empty (operator_name ∷ ops_operator_name ∷ [])
    modify λ s. record s {
      ops_lifecycle_logs =
          record {
            id = id;
            customer_id = customer.id;
            stage_before = before;
            stage_after = stage;
            reason = reason;
            operator_id = who;
            operator_name = name;
            created_at = created_at;
          }
          ∷ s.ops_lifecycle_logs;
    }
    add_ops_timeline world customer.id "lifecycle" "生命周期变更"
        (ops_stage_label before <> " -> " <> ops_stage_label stage <> "；原因：" <> reason) id who name
    ensure_revisit changed stage
    pure changed
