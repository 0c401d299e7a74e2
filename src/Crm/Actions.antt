-- ===== src/Crm/Actions.antt =====
-- `customerActionHandler` (from the customer that it found on) and `customerRelationAction` of
-- backend/customer_actions.go, in memory.
use jianghu_scrm.Prelude.{
  ◌+◌, String, true, false, Option, none, some, List, [], ◌∷◌, ◌++◌, map, ◌==◌, ◌<>◌, find,
  update_first, if◌then◌else◌,
}
use jianghu_scrm.Utils.{first, append_unique}
use jianghu_scrm.Models.Crm.{Customer, Relation}
use jianghu_scrm.Ops.Http.{Reply, ok, err_not_found, err_bad_request}
use jianghu_scrm.Crm.Pool.{Outside, Pool, audit, tick, prepend_audit, find_customer, put_customer}

-- `encoding/json` on the bodies that the handlers read; `none` where `decode` fails. The actions
-- that ignore an error see the payload that the decoder leaves.
pub record Bodies : Type 0 where
  pub touch : String → String × String  -- content, method
  pub detail : String → String
  pub relation : String → Option (String × String)  -- guideId, guide
  pub order : String → String × String  -- amount, source

-- An answer with the pool after it.
abbrev pub Answer : Type 0
Answer = Reply Customer × Pool

unfoldable pub saved : Pool → Customer → Answer
saved pool c = (ok c, put_customer c (tick pool))

unfoldable pub method_or : String → String
method_or method = if method == "" then "企微单聊待办" else method

unfoldable pub amount_or : String → String
amount_or amount = if amount == "" then "¥1,280" else amount

unfoldable pub not_main : Relation → Relation
not_main relation = record relation { main = false }

unfoldable pub set_main : String → List Relation → List Relation
unfolding not_main
set_main id relations =
    update_first (λ r. r.id == id) (λ r. record r { main = true }) (map not_main relations)

module _ (outside : Outside) where
  unfoldable pub touch_action : Pool → Customer → String × String → Answer
  touch_action pool c (content, method) = saved pool (
      prepend_audit
        (audit outside pool "创建触达任务" "待导购确认发送" "运营" ("客户：" <> c.name <> "；导购：" <> c.owner)
          (method_or method <> "｜" <> content))
        c)

  unfoldable pub followup_note_action : Pool → Customer → String → Answer
  followup_note_action pool c detail =
      saved pool
        (prepend_audit (audit outside pool "新增跟进" "已记录客户沟通结果" c.owner ("客户：" <> c.name) detail) c)

  unfoldable pub add_relation : Pool → Customer → String → String → Answer
  add_relation pool c guide_id guide =
      if guide == ""
      then (err_bad_request "guide is required", pool)
      else let relation : Relation = record {
        id = "r" <> outside.suffix pool.drawn;
        guide_id = guide_id;
        guide = guide;
        code = "南山店-" <> guide;
        store = c.source_store;
        linked_at = outside.days pool.readings;
        ended_at = "-";
        main = false;
      } in
        let after = record pool { drawn = pool.drawn + 1; readings = pool.readings + 1 } in
        saved after (
          prepend_audit
            (audit outside after "新增关联导购" "已建立服务关系" "运营" ("客户：" <> c.name <> "；导购：" <> guide)
              "历史来源不回改。")
            (record c { relations = c.relations ++ relation ∷ [] }))

  unfoldable pub add_relation_action : Pool → Customer → Option (String × String) → Answer
  add_relation_action pool c none = (err_bad_request "invalid json", pool)
  add_relation_action pool c (some (guide_id, guide)) = add_relation pool c guide_id guide

  unfoldable pub lead_action : Pool → Customer → Answer
  unfolding first
  lead_action pool c = saved pool (
      prepend_audit
        (audit outside pool "建线索 / 商机" "已进入销售承接" "运营" ("客户：" <> c.name <> "；负责人：" <> c.owner)
          ("来源行为：" <> first c.signals))
        (record c { sales_stage = "已建线索"; stage = "新客待转化" }))

  unfoldable pub order_action : Pool → Customer → String × String → Answer
  order_action pool c (amount, source) = saved pool (
      prepend_audit
        (audit outside pool "记录成交 / 回款" "已回写标签和转化阶段" "运营" ("客户：" <> c.name <> "；导购：" <> c.owner)
          ("成交来源：" <> source <> "；金额：" <> amount_or amount))
        (record c {
          deal_amount = amount_or amount;
          sales_stage = "已成交";
          stage = "复购培育";
          tags = append_unique c.tags ("已成交" ∷ []);
        }))

  unfoldable pub set_main_action : Pool → Customer → Relation → Answer
  set_main_action pool c relation =
      if relation.main
      then (err_bad_request "relation is already main guide", pool)
      else saved pool (
          prepend_audit
            (audit outside pool "设置主跟进导购" "主跟进已更新" "运营"
              ("客户：" <> c.name <> "；导购：" <> relation.guide) "之前的主跟进自动变为否。")
            (record c { relations = set_main relation.id c.relations; owner = relation.guide }))

  unfoldable pub end_action : Pool → Customer → Relation → Answer
  end_action pool c relation =
      if relation.main
      then (err_bad_request "main guide relation cannot be ended", pool)
      else let after = record pool { readings = pool.readings + 1 } in
        saved after (
          prepend_audit
            (audit outside after "结束关联导购" "关系已结束" "运营" ("客户：" <> c.name <> "；导购：" <> relation.guide)
              "系统留痕，历史来源不回改。")
            (record c {
              relations =
                  update_first (λ r. r.id == relation.id)
                    (λ r. record r { ended_at = outside.days pool.readings }) c.relations;
            }))

  unfoldable pub relation_verb : Pool → Customer → String → Option Relation → Answer
  relation_verb pool c action none = (err_not_found, pool)
  relation_verb pool c action (some relation) =
      if action == "set-main"
      then set_main_action pool c relation
      else if action == "end"
      then end_action pool c relation
      else (err_not_found, pool)

  unfoldable pub customer_relation_action : Pool → Customer → List String → Answer
  customer_relation_action pool c [] = (err_not_found, pool)
  customer_relation_action pool c (_ ∷ []) = (err_not_found, pool)
  customer_relation_action pool c (id ∷ action ∷ _) =
      relation_verb pool c action (find (λ r. r.id == id) c.relations)

  -- the routes below "relations"
  unfoldable pub relations_verb : Bodies → String → Pool → Customer → List String → Answer
  relations_verb bodies body pool c [] = add_relation_action pool c (bodies.relation body)
  relations_verb bodies body pool c (x ∷ xs) = customer_relation_action pool c (x ∷ xs)

  unfoldable pub customer_verb : Bodies → String → Pool → Customer → List String → Answer
  customer_verb bodies body pool c [] = (ok c, pool)
  customer_verb bodies body pool c (part ∷ parts) =
      if part == "touch"
      then touch_action pool c (bodies.touch body)
      else if part == "followups"
      then followup_note_action pool c (bodies.detail body)
      else if part == "relations"
      then relations_verb bodies body pool c parts
      else if part == "lead"
      then lead_action pool c
      else if part == "order"
      then order_action pool c (bodies.order body)
      else (err_not_found, pool)

  unfoldable pub on_found : Bodies → String → Pool → List String → Option Customer → Answer
  on_found bodies body pool parts none = (err_not_found, pool)
  on_found bodies body pool parts (some c) = customer_verb bodies body pool c parts

  unfoldable pub customer_action_handler : Bodies → String → String → List String → Pool → Answer
  customer_action_handler bodies body id parts pool =
      on_found bodies body pool parts (find_customer id pool)
