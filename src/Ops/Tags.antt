-- ===== src/Ops/Tags.antt =====
-- The tags of customers in customer_ops.go: `ensureOpsTagLocked`, `addOpsTagToCustomerLocked` and
-- `removeOpsTagFromCustomerLocked`.
use jianghu_scrm.Prelude.{
  String, Bool, true, not, Option, none, some, [], ◌∷◌, ◌++◌, ◌==◌, ◌&&◌, any, find, if◌then◌else◌,
}
use jianghu_scrm.Utils.{first_non_empty, filter}
use jianghu_scrm.Models.OpsCustomers.{OpsCustomerTag, OpsCustomerTagRelation}
use jianghu_scrm.Ops.State.{World, Ops, OpsState, new_id, stamp, pure, gets, modify, ◌>>=◌, ◌>>◌}
use jianghu_scrm.Ops.Find.{ops_tag_name}
use jianghu_scrm.Ops.Journal.{ops_operator_id, ops_operator_name, add_ops_timeline}

unfoldable pub is_link : String → String → OpsCustomerTagRelation → Bool
is_link customer_id tag_id link = link.customer_id == customer_id && link.tag_id == tag_id

-- The loop by ID is skipped for an empty ID.
unfoldable pub tag_by_id : String → OpsState → Option OpsCustomerTag
tag_by_id tag_id s = if tag_id == "" then none else find (λ t. t.id == tag_id) s.ops_tags

unfoldable pub tag_by_name : String → OpsState → Option OpsCustomerTag
tag_by_name name s = find (λ t. t.name == name) s.ops_tags

unfoldable pub or_found : Option OpsCustomerTag → Ops OpsCustomerTag → Ops OpsCustomerTag
or_found none otherwise = otherwise
or_found (some tag) otherwise = pure tag

module _ (world : World) where
  unfoldable pub add_tag : String → String → String → Ops OpsCustomerTag
  unfolding new_id stamp first_non_empty
  add_tag name category source = do
    id ← new_id world "tag"
    created_at ← stamp world
    updated_at ← stamp world
    let tag : OpsCustomerTag = record {
      id = id;
      name = name;
      category = first_non_empty (category ∷ "手动标签" ∷ []);
      color = "blue";
      source = first_non_empty (source ∷ "manual" ∷ []);
      is_enabled = true;
      created_at = created_at;
      updated_at = updated_at;
    }
    modify (λ s. record s { ops_tags = s.ops_tags ++ tag ∷ [] })
    pure tag

  unfoldable pub ensure_ops_tag : String → String → String → String → Ops OpsCustomerTag
  unfolding first_non_empty
  ensure_ops_tag tag_id name category source = do
    by_id ← gets (tag_by_id tag_id)
    let name' = first_non_empty (name ∷ tag_id ∷ [])
    by_name ← gets (tag_by_name name')
    or_found by_id (or_found by_name (add_tag name' category source))

  unfoldable pub link_tag : String → String → String → String → String → Ops Unit
  unfolding new_id stamp first_non_empty
  link_tag customer_id tag_id source operator_id operator_name = do
    id ← new_id world "link"
    created_at ← stamp world
    modify λ s. record s {
      ops_tag_links =
          s.ops_tag_links
          ++ record {
            id = id;
            customer_id = customer_id;
            tag_id = tag_id;
            source = source;
            operator_id = first_non_empty (operator_id ∷ ops_operator_id ∷ []);
            created_at = created_at;
          }
            ∷ [];
    }
    tag_name ← gets (ops_tag_name tag_id)
    add_ops_timeline world customer_id "tag" "添加客户标签" tag_name tag_id
        (first_non_empty (operator_id ∷ ops_operator_id ∷ []))
        (first_non_empty (operator_name ∷ ops_operator_name ∷ []))

  unfoldable pub add_ops_tag_to_customer : String → String → String → String → String → Ops Unit
  add_ops_tag_to_customer customer_id tag_id source operator_id operator_name = do
    known ← gets (λ s. any (is_link customer_id tag_id) s.ops_tag_links)
    if known then pure tt else link_tag customer_id tag_id source operator_id operator_name

unfoldable pub remove_ops_tag_from_customer : String → String → Ops Unit
remove_ops_tag_from_customer customer_id tag_id = modify λ s. record s {
  ops_tag_links = filter (λ link. not (is_link customer_id tag_id link)) s.ops_tag_links;
}
