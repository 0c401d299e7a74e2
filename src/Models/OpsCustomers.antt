-- ===== src/Models/OpsCustomers.antt =====
-- models.go: customers of the operations centre, their tags, logs and timeline.
use jianghu_scrm.Prelude.{String, Bool, List}

pub record OpsCustomer : Type 0 where
  pub id : String
  pub name : String
  pub nickname : String
  pub mobile : String
  pub avatar : String
  pub source_channel : String
  pub region_id : String
  pub region_name : String
  pub store_id : String
  pub store_name : String
  pub owner_guide_id : String
  pub owner_guide_name : String
  pub lifecycle_stage : String
  pub intention_level : String
  pub status : String
  pub add_wecom_time : String
  pub last_follow_up_time : String
  pub last_interaction_time : String
  pub deal_status : String
  pub risk : String
  pub tags : List String
  pub created_at : String
  pub updated_at : String

pub record OpsLifecycleLog : Type 0 where
  pub id : String
  pub customer_id : String
  pub stage_before : String
  pub stage_after : String
  pub reason : String
  pub operator_id : String
  pub operator_name : String
  pub created_at : String

pub record OpsCustomerTag : Type 0 where
  pub id : String
  pub name : String
  pub category : String
  pub color : String
  pub source : String
  pub is_enabled : Bool
  pub created_at : String
  pub updated_at : String

pub record OpsCustomerTagRelation : Type 0 where
  pub id : String
  pub customer_id : String
  pub tag_id : String
  pub source : String
  pub operator_id : String
  pub created_at : String

pub record OpsFollowUpRecord : Type 0 where
  pub id : String
  pub customer_id : String
  pub store_id : String
  pub guide_id : String
  pub follow_up_type : String
  pub content : String
  pub result : String
  pub next_follow_up_time : String
  pub stage_before : String
  pub stage_after : String
  pub created_by : String
  pub created_at : String

pub record OpsTimelineEvent : Type 0 where
  pub id : String
  pub customer_id : String
  pub event_type : String
  pub title : String
  pub content : String
  pub related_id : String
  pub operator_id : String
  pub operator_name : String
  pub created_at : String
