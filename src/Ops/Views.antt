-- ===== src/Ops/Views.antt =====
-- What the operations centre shows: the scoped lists, and a customer with all that belongs to it
-- (`opsCustomerDetailLocked` and the functions that it calls in customer_ops.go).
use jianghu_scrm.Prelude.{
  String, Option, none, some, List, [], ◌∷◌, ◌==◌, ◌||◌, less, stable_sort, if◌then◌else◌,
}
use jianghu_scrm.Utils.{filter, append_unique, intersects}
use jianghu_scrm.Models.OpsCustomers.{
  OpsCustomer, OpsCustomerTag, OpsCustomerTagRelation, OpsFollowUpRecord, OpsTimelineEvent,
}
use jianghu_scrm.Models.OpsWork.{OpsTask, OpsMaterial, OpsException}
use jianghu_scrm.Ops.State.{OpsState}
use jianghu_scrm.Ops.Find.{find_ops_tag, ops_tag_name}
use jianghu_scrm.Ops.Access.{
  Request, can_access_ops_customer, can_access_ops_task, can_access_ops_exception,
}

-- The loop of `opsTagNamesForCustomerLocked`.
unfoldable pub tag_names :
    OpsState → String → List OpsCustomerTagRelation → List String → List String
tag_names s customer_id [] names = names
tag_names s customer_id (link ∷ links) names = tag_names s customer_id links (
    if link.customer_id == customer_id
    then append_unique names (ops_tag_name link.tag_id s ∷ [])
    else names)

unfoldable pub ops_tag_names_for_customer : String → OpsState → List String
unfolding tag_names
ops_tag_names_for_customer customer_id s = tag_names s customer_id s.ops_tag_links []

unfoldable pub with_ops_customer_tags : OpsState → OpsCustomer → OpsCustomer
with_ops_customer_tags s c = record c { tags = ops_tag_names_for_customer c.id s }

unfoldable pub attach : OpsState → List OpsCustomer → List OpsCustomer
unfolding with_ops_customer_tags
attach s [] = []
attach s (c ∷ rows) = with_ops_customer_tags s c ∷ attach s rows

unfoldable pub scoped_ops_customers : Request → OpsState → List OpsCustomer
unfolding attach filter
scoped_ops_customers r s = attach s (filter (can_access_ops_customer r) s.ops_customers)

unfoldable pub scoped_ops_tasks : Request → OpsState → List OpsTask
unfolding filter
scoped_ops_tasks r s =
    stable_sort (λ a b. less a.due_time b.due_time) (filter (can_access_ops_task r) s.ops_tasks)

unfoldable pub scoped_ops_exceptions : Request → OpsState → List OpsException
unfolding filter
scoped_ops_exceptions r s = filter (λ e. can_access_ops_exception r e s) s.ops_exceptions

-- A link to a tag that is not there shows nothing.
unfoldable pub consider : Option OpsCustomerTag → List OpsCustomerTag → List OpsCustomerTag
consider none rest = rest
consider (some tag) rest = tag ∷ rest

unfoldable pub linked_tags : OpsState → String → List OpsCustomerTagRelation → List OpsCustomerTag
unfolding consider
linked_tags s customer_id [] = []
linked_tags s customer_id (link ∷ links) =
    let rest = linked_tags s customer_id links in
    if link.customer_id == customer_id then consider (find_ops_tag link.tag_id s) rest else rest

unfoldable pub ops_tags_for_customer : String → OpsState → List OpsCustomerTag
unfolding linked_tags
ops_tags_for_customer customer_id s = linked_tags s customer_id s.ops_tag_links

unfoldable pub ops_followups_for_customer : String → OpsState → List OpsFollowUpRecord
ops_followups_for_customer customer_id s =
    filter (λ f. f.customer_id == customer_id) s.ops_followups

unfoldable pub ops_tasks_for_customer : String → OpsState → List OpsTask
ops_tasks_for_customer customer_id s = filter (λ t. t.customer_id == customer_id) s.ops_tasks

unfoldable pub ops_timeline_for_customer : String → OpsState → List OpsTimelineEvent
ops_timeline_for_customer customer_id s =
    stable_sort (λ a b. less b.created_at a.created_at)
      (filter (λ e. e.customer_id == customer_id) s.ops_timelines)

unfoldable pub ops_materials_for_customer : OpsCustomer → OpsState → List OpsMaterial
ops_materials_for_customer c s =
    let names = ops_tag_names_for_customer c.id s in
    filter (λ m. m.applicable_stage == c.lifecycle_stage || intersects m.applicable_tags names)
      s.ops_materials

pub record OpsDetail : Type 0 where
  pub customer : OpsCustomer
  pub tags : List OpsCustomerTag
  pub followups : List OpsFollowUpRecord
  pub timeline : List OpsTimelineEvent
  pub tasks : List OpsTask
  pub materials : List OpsMaterial

unfoldable pub ops_customer_detail : OpsCustomer → OpsState → OpsDetail
unfolding with_ops_customer_tags
ops_customer_detail c s = record {
  customer = with_ops_customer_tags s c;
  tags = ops_tags_for_customer c.id s;
  followups = ops_followups_for_customer c.id s;
  timeline = ops_timeline_for_customer c.id s;
  tasks = ops_tasks_for_customer c.id s;
  materials = ops_materials_for_customer c s;
}
