-- ===== src/Db/Tables.antt =====
-- The rows of the tables that the worker reads and writes (backend/migrations name their columns),
-- and the statements over rows: UPDATE ... WHERE, and the first row of a SELECT.
use jianghu_scrm.Prelude.{Bool, List, String, Option, ℕ, ◌∷◌, if◌then◌else◌, some, [], none}

pub record DbTask : Type 0 where
  pub id : String
  pub task_type : String
  pub status : String
  pub total_count : ℕ
  pub success_count : ℕ
  pub failed_count : ℕ
  pub payload : String
  pub created_by : String
  pub created_at : ℕ
  pub started_at : Option ℕ
  pub finished_at : Option ℕ
  pub last_error : String

pub record DbTaskItem : Type 0 where
  pub id : String
  pub task_id : String
  pub target_id : String
  pub status : String
  pub attempts : ℕ
  pub result : String
  pub last_error : String
  pub next_attempt_at : ℕ
  pub updated_at : ℕ

pub record DbEvent : Type 0 where
  pub id : String
  pub source : String
  pub event_type : String
  pub object_id : String
  pub idempotency_key : String
  pub status : String
  pub attempts : ℕ
  pub received_at : ℕ
  pub processed_at : Option ℕ
  pub next_attempt_at : ℕ
  pub payload : String

pub record DbCustomer : Type 0 where
  pub id : String
  pub name : String
  pub updated_at : ℕ

pub record DbTag : Type 0 where
  pub id : String
  pub tag_group_id : String
  pub name : String
  pub status : String
  pub created_at : ℕ

pub record DbCustomerTag : Type 0 where
  pub customer_id : String
  pub tag_id : String
  pub source : String

pub record DbCustomerEvent : Type 0 where
  pub id : String
  pub customer_id : String
  pub event_type : String
  pub source : String
  pub object_id : String
  pub tags : List String
  pub operator : String

pub record Database : Type 0 where
  pub tasks : List DbTask
  pub task_items : List DbTaskItem
  pub event_inbox : List DbEvent
  pub customers : List DbCustomer
  pub tag_groups : List String
  pub tags : List DbTag
  pub customer_tags : List DbCustomerTag
  pub customer_events : List DbCustomerEvent
  pub drawn : ℕ  -- calls of `newID` so far

module _ {A : Type 0} where
  -- UPDATE ... SET f WHERE p
  unfoldable pub update_where : (A → Bool) → (A → A) → List A → List A
  update_where p f [] = []
  update_where p f (row ∷ rows) = (if p row then f row else row) ∷ update_where p f rows

-- COALESCE(value, now())
unfoldable pub coalesce : Option ℕ → ℕ → Option ℕ
coalesce none now = some now
coalesce (some t) now = some t
