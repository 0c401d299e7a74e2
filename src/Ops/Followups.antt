-- ===== src/Ops/Followups.antt =====
-- `addOpsFollowupLocked` of customer_ops.go.
use jianghu_scrm.Prelude.{String, not, [], ◌∷◌, ◌==◌, ◌&&◌, ◌<>◌, if◌then◌else◌}
use jianghu_scrm.Utils.{first_non_empty}
use jianghu_scrm.Models.OpsCustomers.{OpsCustomer, OpsFollowUpRecord}
use jianghu_scrm.Models.OpsWork.{OpsTask}
use jianghu_scrm.Ops.State.{World, Ops, new_id, stamp, pure, modify, ◌>>=◌, ◌>>◌}
use jianghu_scrm.Ops.Find.{write_customer}
use jianghu_scrm.Ops.Journal.{add_ops_timeline}
use jianghu_scrm.Ops.Tasks.{empty_task, create_ops_task}
use jianghu_scrm.Ops.Stage.{change_ops_customer_stage}

abbrev pub reminder_task : OpsCustomer → String → OpsTask
reminder_task customer next_time = record empty_task {
  task_type = "客户跟进提醒";
  title = "跟进" <> customer.name;
  description = "跟进记录设置了下次跟进时间。";
  customer_id = customer.id;
  priority = "P2";
  due_time = next_time;
  source = "下次跟进时间";
}

-- The arguments of a follow-up, as its handler decodes them.
pub record FollowUp : Type 0 where
  pub follow_up_type : String
  pub content : String
  pub result : String
  pub next_follow_up_time : String
  pub stage_after : String
  pub created_by : String

module _ (world : World) where
  unfoldable pub add_ops_followup : OpsCustomer → FollowUp → Ops OpsFollowUpRecord
  unfolding new_id stamp first_non_empty
  add_ops_followup customer input = do
    let before = customer.lifecycle_stage
    id ← new_id world "fu"
    created_at ← stamp world
    let row : OpsFollowUpRecord = record {
      id = id;
      customer_id = customer.id;
      store_id = customer.store_id;
      guide_id = customer.owner_guide_id;
      follow_up_type = first_non_empty (input.follow_up_type ∷ "日常回访" ∷ []);
      content = input.content;
      result = first_non_empty (input.result ∷ "需继续跟进" ∷ []);
      next_follow_up_time = input.next_follow_up_time;
      stage_before = before;
      stage_after = input.stage_after;
      created_by = first_non_empty (input.created_by ∷ customer.owner_guide_name ∷ []);
      created_at = created_at;
    }
    modify (λ s. record s { ops_followups = row ∷ s.ops_followups })
    let followed = record customer {
      last_follow_up_time = row.created_at;
      updated_at = row.created_at;
    }
    modify (write_customer followed)
    add_ops_timeline world customer.id "followup" "新增跟进记录"
        (row.follow_up_type <> "：" <> input.content <> "；结果：" <> row.result) row.id
        customer.owner_guide_id row.created_by
    if not (input.stage_after == "") && not (input.stage_after == before)
        then (do
          _ ←
              change_ops_customer_stage world followed input.stage_after "跟进记录触发阶段变化"
                customer.owner_guide_id row.created_by
          pure tt)
        else pure tt
    if not (input.next_follow_up_time == "")
        then (do
          _ ← create_ops_task world (reminder_task customer input.next_follow_up_time)
          pure tt)
        else pure tt
    pure row
