-- ===== src/Ops/Http.antt =====
-- Replies, and the bodies that `decode` reads. The decoding itself is Go's `encoding/json`: `none`
-- is its error. `task_note` has no error, since its caller drops it and keeps what was decoded.
use jianghu_scrm.Prelude.{String, Bool, true, false, List, Option, none, some}
use jianghu_scrm.Models.OpsWork.{OpsTask}
use jianghu_scrm.Ops.State.{Ops, pure}
use jianghu_scrm.Ops.Followups.{FollowUp}
use jianghu_scrm.Ops.Access.{Method, get, post, patch, delete}

pub data Reply (A : Type 0) : Type 0 where
  ok : A → Reply A
  err_not_found : Reply A
  err_bad_request : String → Reply A

pub record StagePayload : Type 0 where
  pub stage : String
  pub reason : String
  pub operator_id : String
  pub operator_name : String

pub record TagPayload : Type 0 where
  pub tag_id : String
  pub name : String
  pub category : String
  pub source : String
  pub operator_id : String
  pub operator_name : String

pub record TaskNote : Type 0 where
  pub remark : String
  pub assigned_to_user : String
  pub assigned_to_name : String

-- The fields of an `OpsMaterial` in a body that a handler reads; `none` is a nil slice.
pub record MaterialPayload : Type 0 where
  pub title : String
  pub content : String
  pub material_type : String
  pub applicable_stage : String
  pub applicable_tags : Option (List String)
  pub status : String
  pub created_by : String

pub record Decoder : Type 0 where
  pub stage_payload : String → Option StagePayload
  pub tag_payload : String → Option TagPayload
  pub follow_up : String → Option FollowUp
  pub ops_task : String → Option OpsTask
  pub task_note : String → TaskNote
  pub material : String → Option MaterialPayload

abbrev pub is_get : Method → Bool
is_get get = true
is_get _ = false

abbrev pub is_post : Method → Bool
is_post post = true
is_post _ = false

abbrev pub is_patch : Method → Bool
is_patch patch = true
is_patch _ = false

abbrev pub is_delete : Method → Bool
is_delete delete = true
is_delete _ = false

module _ {A B : Type 0} where
  -- if err := decode(r, &payload); err != nil { return err }
  unfoldable pub decoded : Option A → (A → Ops (Reply B)) → Ops (Reply B)
  unfolding pure
  decoded none k = pure (err_bad_request "invalid body")
  decoded (some payload) k = k payload

  -- A nil pointer is answered by `errNotFound`.
  unfoldable pub or_not_found : Option A → (A → Ops (Reply B)) → Ops (Reply B)
  unfolding pure
  or_not_found none k = pure err_not_found
  or_not_found (some a) k = k a
