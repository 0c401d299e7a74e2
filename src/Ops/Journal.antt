-- ===== src/Ops/Journal.antt =====
-- What customer_ops.go writes down about its operations: the task logs and the timeline.
use jianghu_scrm.Prelude.{String, [], ◌∷◌}
use jianghu_scrm.Utils.{first_non_empty}
use jianghu_scrm.Ops.State.{World, Ops, new_id, stamp, modify, ◌>>=◌}

abbrev pub ops_operator_id : String
ops_operator_id = "u_hq_admin"

abbrev pub ops_operator_name : String
ops_operator_name = "总部管理员 张三"

module _ (world : World) where
  unfoldable pub add_ops_task_log : String → String → String → String → String → Ops Unit
  unfolding new_id stamp
  add_ops_task_log task_id action old_status new_status remark = do
    id ← new_id world "otl"
    created_at ← stamp world
    modify λ s. record s {
      ops_task_logs =
          record {
            id = id;
            task_id = task_id;
            action = action;
            old_status = old_status;
            new_status = new_status;
            remark = remark;
            operator_id = ops_operator_id;
            operator_name = ops_operator_name;
            created_at = created_at;
          }
          ∷ s.ops_task_logs;
    }

  unfoldable pub add_ops_timeline :
      String → String → String → String → String → String → String → Ops Unit
  unfolding new_id stamp first_non_empty
  add_ops_timeline customer_id event_type title content related_id operator_id operator_name = do
    id ← new_id world "tl"
    created_at ← stamp world
    modify λ s. record s {
      ops_timelines =
          record {
            id = id;
            customer_id = customer_id;
            event_type = event_type;
            title = title;
            content = content;
            related_id = related_id;
            operator_id = first_non_empty (operator_id ∷ ops_operator_id ∷ []);
            operator_name = first_non_empty (operator_name ∷ ops_operator_name ∷ []);
            created_at = created_at;
          }
          ∷ s.ops_timelines;
    }
