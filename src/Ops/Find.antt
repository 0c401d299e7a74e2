-- ===== src/Ops/Find.antt =====
-- The searches of customer_ops.go and the writes through the pointers that they return. A pointer
-- that `find...Locked` returns goes to the first element with its ID. No function assigns an ID,
-- and none reorders the customers, so a write through the pointer is a write to that element.
use jianghu_scrm.Prelude.{
  String, Bool, not, Option, none, some, ◌==◌, ◌&&◌, any, find, update_first,
}
use jianghu_scrm.Models.OpsCustomers.{OpsCustomer, OpsCustomerTag}
use jianghu_scrm.Models.OpsWork.{OpsTask, OpsException}
use jianghu_scrm.Ops.State.{OpsState}

unfoldable pub find_ops_customer : String → OpsState → Option OpsCustomer
find_ops_customer id s = find (λ c. c.id == id) s.ops_customers

unfoldable pub find_ops_task : String → OpsState → Option OpsTask
find_ops_task id s = find (λ t. t.id == id) s.ops_tasks

unfoldable pub find_ops_exception : String → OpsState → Option OpsException
find_ops_exception id s = find (λ e. e.id == id) s.ops_exceptions

unfoldable pub find_ops_tag : String → OpsState → Option OpsCustomerTag
find_ops_tag id s = find (λ t. t.id == id) s.ops_tags

abbrev name_or : Option OpsCustomerTag → String → String
name_or none id = id
name_or (some tag) id = tag.name

unfoldable pub ops_tag_name : String → OpsState → String
unfolding find_ops_tag
ops_tag_name id s = name_or (find_ops_tag id s) id

-- Whether a task of this type is open for the customer.
unfoldable pub is_open_task : String → String → OpsTask → Bool
is_open_task customer_id task_type task =
    task.customer_id == customer_id
    && task.task_type == task_type
    && not (task.status == "completed")
    && not (task.status == "ignored")
    && not (task.status == "cancelled")

unfoldable pub has_open_ops_task : String → String → OpsState → Bool
has_open_ops_task customer_id task_type s = any (is_open_task customer_id task_type) s.ops_tasks

-- `*customer = ...`, `*task = ...` and `*item = ...`
unfoldable pub write_customer : OpsCustomer → OpsState → OpsState
write_customer customer s = record s {
  ops_customers = update_first (λ c. c.id == customer.id) (λ _. customer) s.ops_customers;
}

unfoldable pub write_task : OpsTask → OpsState → OpsState
write_task task s = record s {
  ops_tasks = update_first (λ t. t.id == task.id) (λ _. task) s.ops_tasks;
}

unfoldable pub write_exception : OpsException → OpsState → OpsState
write_exception item s = record s {
  ops_exceptions = update_first (λ e. e.id == item.id) (λ _. item) s.ops_exceptions;
}
