-- ===== src/Models/Crm.antt =====
-- models.go: customers of the pool, their guide relations, handovers and audit events.
use jianghu_scrm.Prelude.{ℕ, String, Bool, List}

pub record AuditEvent : Type 0 where
  pub id : String
  pub time : String
  pub action : String
  pub result : String
  pub operator : String
  pub people : String
  pub detail : String

pub record Relation : Type 0 where
  pub id : String
  pub guide_id : String
  pub guide : String
  pub code : String
  pub store : String
  pub linked_at : String
  pub ended_at : String
  pub main : Bool

pub record Customer : Type 0 where
  pub id : String
  pub name : String
  pub wecom : String
  pub mobile : String
  pub owner : String
  pub source : String
  pub source_store : String
  pub stage : String
  pub tag_group : String
  pub tags : List String
  pub wecom_tags : List String
  pub last_active : String
  pub intent_score : ℕ
  pub sales_stage : String
  pub conversion_source : String
  pub deal_amount : String
  pub next_follow_up : String
  pub signals : List String
  pub relations : List Relation
  pub timeline : List AuditEvent

pub record HandoverItem : Type 0 where
  pub id : String
  pub customer_id : String
  pub customer : String
  pub reason : String
  pub current_owner : String
  pub required_action : String
  pub receiver : String
  pub status : String

pub record Guide : Type 0 where
  pub id : String
  pub store_id : String
  pub name : String
  pub code : String
  pub count : String
  pub total_pool : ℕ
  pub today_pool : ℕ
  pub status : String
  pub employment_status : String
  pub paused : Bool
  pub handling : String
  pub lifecycle : List AuditEvent

pub record QrDownload : Type 0 where
  pub file_name : String
  pub mime_type : String
  pub content : String
