-- ===== src/Models/OpsWork.antt =====
-- models.go: SOP tasks, their logs, materials and exceptions of the operations centre.
use jianghu_scrm.Prelude.{String, List}

pub record OpsTask : Type 0 where
  pub id : String
  pub task_type : String
  pub title : String
  pub description : String
  pub customer_id : String
  pub customer_name : String
  pub region_id : String
  pub region_name : String
  pub store_id : String
  pub store_name : String
  pub assigned_to_user_id : String
  pub assigned_to_name : String
  pub assigned_to_role : String
  pub priority : String
  pub status : String
  pub due_time : String
  pub completed_at : String
  pub source : String
  pub created_at : String
  pub updated_at : String

pub record OpsTaskLog : Type 0 where
  pub id : String
  pub task_id : String
  pub action : String
  pub old_status : String
  pub new_status : String
  pub remark : String
  pub operator_id : String
  pub operator_name : String
  pub created_at : String

pub record OpsMaterial : Type 0 where
  pub id : String
  pub title : String
  pub content : String
  pub material_type : String
  pub applicable_stage : String
  pub applicable_tags : List String
  pub status : String
  pub created_by : String
  pub created_at : String
  pub updated_at : String

pub record OpsException : Type 0 where
  pub id : String
  pub exception_type : String
  pub title : String
  pub description : String
  pub severity : String
  pub region_id : String
  pub region_name : String
  pub store_id : String
  pub store_name : String
  pub customer_id : String
  pub customer_name : String
  pub task_id : String
  pub assigned_to : String
  pub status : String
  pub suggestion : String
  pub created_at : String
  pub resolved_at : String
