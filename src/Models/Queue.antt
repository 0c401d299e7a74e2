-- ===== src/Models/Queue.antt =====
-- models.go: the event inbox, and tasks with their items.
use jianghu_scrm.Prelude.{ℕ, String, List}

pub record EventEnvelope : Type 0 where
  pub id : String
  pub source : String
  pub type : String
  pub object_id : String
  pub idempotency_key : String
  pub status : String
  pub attempts : ℕ
  pub received_at : String
  pub processed_at : String
  pub payload : String

pub record TaskRecord : Type 0 where
  pub id : String
  pub type : String
  pub status : String
  pub total_count : ℕ
  pub success_count : ℕ
  pub failed_count : ℕ
  pub payload : String
  pub created_by : String
  pub created_at : String
  pub started_at : String
  pub finished_at : String
  pub last_error : String

pub record TaskItemRecord : Type 0 where
  pub id : String
  pub task_id : String
  pub target_id : String
  pub status : String
  pub attempts : ℕ
  pub result : String
  pub last_error : String
  pub updated_at : String

pub record BatchTagTaskPayload : Type 0 where
  pub customer_i_ds : List String
  pub tags : List String
  pub operator : String
