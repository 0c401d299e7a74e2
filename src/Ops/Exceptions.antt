-- ===== src/Ops/Exceptions.antt =====
-- The operation exceptions of customer_ops.go: `refreshOpsExceptionsLocked`,
-- `ensureOpsExceptionLocked` and `resolveOpsExceptionByTaskLocked`.
use jianghu_scrm.Prelude.{
  String, Bool, not, Option, none, some, List, [], ◌∷◌, ◌==◌, ◌&&◌, ◌<>◌, any, if◌then◌else◌,
}
use jianghu_scrm.Models.OpsCustomers.{OpsCustomer}
use jianghu_scrm.Models.OpsWork.{OpsTask, OpsException}
use jianghu_scrm.Ops.State.{World, Ops, OpsState, new_id, stamp, pure, gets, modify, ◌>>=◌, ◌>>◌}
use jianghu_scrm.Ops.Find.{find_ops_customer}

-- An exception of this kind for this customer and task that is neither resolved nor ignored.
unfoldable pub is_open_exception : String → String → String → OpsException → Bool
is_open_exception kind customer_id task_id item =
    item.exception_type == kind
    && item.customer_id == customer_id
    && item.task_id == task_id
    && not (item.status == "resolved")
    && not (item.status == "ignored")

unfoldable pub has_open_exception : String → String → String → OpsState → Bool
unfolding is_open_exception
has_open_exception kind customer_id task_id s =
    any (is_open_exception kind customer_id task_id) s.ops_exceptions

unfoldable pub place : Option OpsCustomer → OpsException → OpsException
place none item = item
place (some c) item = record item {
  region_id = c.region_id;
  region_name = c.region_name;
  store_id = c.store_id;
  store_name = c.store_name;
  customer_name = c.name;
  assigned_to = c.owner_guide_name;
}

-- if scope != "" && item.CustomerName == "" { item.CustomerName = scope }
unfoldable pub name_scope : String → OpsException → OpsException
name_scope scope item = record item {
  customer_name =
      if not (scope == "") && item.customer_name == "" then scope else item.customer_name;
}

-- a loop over rows
unfoldable pub for_each : {A : Type 0} → (A → Ops Unit) → List A → Ops Unit
for_each body [] = pure tt
for_each body (row ∷ rows) = do body row; for_each body rows

module _ (world : World) where
  module _ (kind customer_id task_id title scope description severity suggestion : String) where
    unfoldable pub add_exception : Ops Unit
    unfolding new_id stamp
    add_exception = do
      found ← gets (find_ops_customer customer_id)
      id ← new_id world "oe"
      created_at ← stamp world
      let item = name_scope scope (
          place found (record {
            id = id;
            exception_type = kind;
            title = title;
            description = description;
            severity = severity;
            region_id = "";
            region_name = "";
            store_id = "";
            store_name = "";
            customer_id = customer_id;
            customer_name = "";
            task_id = task_id;
            assigned_to = "";
            status = "pending";
            suggestion = suggestion;
            created_at = created_at;
            resolved_at = "";
          }))
      modify (λ s. record s { ops_exceptions = item ∷ s.ops_exceptions })

    unfoldable pub ensure_ops_exception : Ops Unit
    ensure_ops_exception = do
      known ← gets (has_open_exception kind customer_id task_id)
      if known then pure tt else add_exception

  unfoldable pub check_task : OpsTask → Ops Unit
  check_task task =
      if task.status == "overdue"
      then ensure_ops_exception "task_overdue" task.customer_id task.id "跟进任务逾期" task.title
          ("任务已超过截止时间：" <> task.due_time) "P0" "立即分派导购处理，并使用对应阶段话术。"
      else pure tt

  unfoldable pub check_customer : OpsCustomer → Ops Unit
  check_customer c =
      if c.lifecycle_stage == "first_follow_pending"
      then ensure_ops_exception "first_follow_timeout" c.id "" "首次跟进超时" c.name c.risk "P0"
          "请店长立即督促导购首次跟进，或转派给可接待导购。"
      else if c.lifecycle_stage == "dormant"
      then ensure_ops_exception "customer_dormant" c.id "" "沉睡客户" c.name c.risk "P1"
          "生成沉睡唤醒任务，并使用沉睡唤醒话术。"
      else pure tt

  unfoldable pub refresh_ops_exceptions : Ops Unit
  refresh_ops_exceptions = do
    tasks ← gets (λ s. s.ops_tasks)
    for_each check_task tasks
    customers ← gets (λ s. s.ops_customers)
    for_each check_customer customers

  -- Each row takes its own reading of the clock.
  unfoldable pub resolve_rows : String → List OpsException → Ops (List OpsException)
  unfolding stamp
  resolve_rows task_id [] = pure []
  resolve_rows task_id (item ∷ rest) = do
    item' ←
        (if item.task_id == task_id && not (item.status == "resolved")
          then (do now ← stamp world; pure (record item { status = "resolved"; resolved_at = now }))
          else pure item)
    rest' ← resolve_rows task_id rest
    pure (item' ∷ rest')

  unfoldable pub resolve_ops_exception_by_task : String → Ops Unit
  resolve_ops_exception_by_task task_id = do
    rows ← gets (λ s. s.ops_exceptions)
    rows' ← resolve_rows task_id rows
    modify (λ s. record s { ops_exceptions = rows' })
