-- ===== src/Ops/Handlers/Customer.antt =====
-- `opsCustomerActionHandler` of customer_ops.go.
use jianghu_scrm.Prelude.{String, not, List, [], ◌∷◌, ◌==◌, ◌<>◌, if◌then◌else◌}
use jianghu_scrm.Utils.{first_non_empty}
use jianghu_scrm.Models.OpsCustomers.{OpsCustomer, OpsFollowUpRecord, OpsTimelineEvent}
use jianghu_scrm.Ops.State.{World, Ops, pure, gets, ◌>>=◌, ◌>>◌}
use jianghu_scrm.Ops.Find.{find_ops_customer}
use jianghu_scrm.Ops.Journal.{ops_operator_id, ops_operator_name, add_ops_timeline}
use jianghu_scrm.Ops.Stage.{change_ops_customer_stage}
use jianghu_scrm.Ops.Followups.{add_ops_followup}
use jianghu_scrm.Ops.Tags.{ensure_ops_tag, add_ops_tag_to_customer, remove_ops_tag_from_customer}
use jianghu_scrm.Ops.Access.{Request, can_access_ops_customer}
use jianghu_scrm.Ops.Views.{OpsDetail, ops_customer_detail, ops_timeline_for_customer}
use jianghu_scrm.Ops.Http.{
  Reply, ok, err_not_found, err_bad_request, Decoder, is_get, is_post, is_patch, is_delete, decoded,
  or_not_found,
}

pub data CustomerBody : Type 0 where
  detail : OpsDetail → CustomerBody
  followup : OpsFollowUpRecord → CustomerBody
  timeline : List OpsTimelineEvent → CustomerBody

unfoldable pub show_detail : OpsCustomer → Ops (Reply CustomerBody)
show_detail c = do d ← gets (ops_customer_detail c); pure (ok (detail d))

module _ (world : World) (json : Decoder) where
  unfoldable pub stage_action : Request → OpsCustomer → Ops (Reply CustomerBody)
  unfolding show_detail first_non_empty
  stage_action r c =
      if not (is_patch r.method)
      then pure err_not_found
      else decoded (json.stage_payload r.body) λ p.
        if p.stage == "" then pure (err_bad_request "stage is required") else do
          changed ←
              change_ops_customer_stage world c p.stage
                (first_non_empty (p.reason ∷ "手动调整生命周期" ∷ [])) p.operator_id p.operator_name
          show_detail changed

  unfoldable pub add_tag_action : Request → OpsCustomer → Ops (Reply CustomerBody)
  unfolding show_detail first_non_empty
  add_tag_action r c = decoded (json.tag_payload r.body) λ p. do
    tag ← ensure_ops_tag world p.tag_id p.name p.category p.source
    add_ops_tag_to_customer world c.id tag.id (first_non_empty (p.source ∷ "manual" ∷ []))
        p.operator_id p.operator_name
    show_detail c

  unfoldable pub remove_tag_action : OpsCustomer → String → Ops (Reply CustomerBody)
  unfolding show_detail
  remove_tag_action c tag_id = do
    remove_ops_tag_from_customer c.id tag_id
    add_ops_timeline world c.id "tag" "移除客户标签" ("标签已移除：" <> tag_id) "" ops_operator_id
        ops_operator_name
    show_detail c

  -- by the number of path parts
  unfoldable pub tags_action : Request → OpsCustomer → List String → Ops (Reply CustomerBody)
  tags_action r c [] = if is_post r.method then add_tag_action r c else pure err_not_found
  tags_action r c (tag_id ∷ []) =
      if is_delete r.method then remove_tag_action c tag_id else pure err_not_found
  tags_action r c (_ ∷ _ ∷ _) = pure err_not_found

  unfoldable pub followup_action : Request → OpsCustomer → Ops (Reply CustomerBody)
  followup_action r c =
      if not (is_post r.method)
      then pure err_not_found
      else decoded (json.follow_up r.body)
          λ p. do row ← add_ops_followup world c p; pure (ok (followup row))

  unfoldable pub timeline_action : Request → OpsCustomer → Ops (Reply CustomerBody)
  timeline_action r c =
      if not (is_get r.method)
      then pure err_not_found
      else do rows ← gets (ops_timeline_for_customer c.id); pure (ok (timeline rows))

  unfoldable pub customer_action : Request → OpsCustomer → List String → Ops (Reply CustomerBody)
  unfolding show_detail
  customer_action r c [] = if is_get r.method then show_detail c else pure err_not_found
  customer_action r c (part ∷ parts) =
      if part == "stage"
      then stage_action r c
      else if part == "tags"
      then tags_action r c parts
      else if part == "follow-ups"
      then followup_action r c
      else if part == "timeline"
      then timeline_action r c
      else pure err_not_found

  unfoldable pub ops_customer_action_handler :
      Request → String → List String → Ops (Reply CustomerBody)
  ops_customer_action_handler r customer_id parts = do
    found ← gets (find_ops_customer customer_id)
    or_not_found found
        λ c. if can_access_ops_customer r c then customer_action r c parts else pure err_not_found
