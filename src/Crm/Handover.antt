-- ===== src/Crm/Handover.antt =====
-- The handover of customers in memory: `syncHandover` and `submitHandover` of backend/handover.go.
-- `strings.Contains` belongs to Go's library. An error keeps what was written before it.
use jianghu_scrm.Models.Crm.{Customer, HandoverItem}
use jianghu_scrm.Crm.Pool.{Outside, Pool, audit, tick, prepend_audit}
use jianghu_scrm.Prelude.{
  List, ◌<>◌, if◌then◌else◌, String, Bool, ◌==◌, ◌∷◌, map, Option, true, ◌&&◌, false, [], some, not,
  none,
}
use jianghu_scrm.Ops.Http.{Reply, err_bad_request, ok}

-- The customers, the open handovers, and whether they were synchronised.
pub record Desk : Type 0 where
  pub pool : Pool
  pub handover : List HandoverItem
  pub wecom_synced : Bool

unfoldable pub open_item : HandoverItem → HandoverItem
open_item item = if item.status == "待同步" then record item { status = "待处理" } else item

unfoldable pub sync_handover : Desk → List HandoverItem × Desk
unfolding open_item
sync_handover desk =
    let items = map open_item desk.handover in
    (items, record desk { handover = items; wecom_synced = true })

unfoldable pub is_for : HandoverItem → Customer → Bool
is_for item c = c.id == item.customer_id && not (item.receiver == "")

unfoldable pub is_refused : (String → String → Bool) → HandoverItem → Bool
is_refused text_contains item = item.receiver == "" && text_contains item.required_action "强制"

module _ (outside : Outside) where
  unfoldable pub hand_customer : Pool → HandoverItem → Customer → Customer
  unfolding prepend_audit audit
  hand_customer pool item c =
      prepend_audit
        (audit outside pool "提交导购交接" "主跟进导购已更新" "店长" ("客户：" <> c.name <> "；接收人：" <> item.receiver)
          item.reason)
        (record c { owner = item.receiver; stage = "新客待转化" })

  -- The loop over the customers; the pool counts the events that are written.
  unfoldable pub hand_customers : HandoverItem → List Customer → Pool → List Customer × Pool
  unfolding is_for hand_customer tick
  hand_customers item [] pool = ([], pool)
  hand_customers item (c ∷ rest) pool =
      let given = is_for item c in
      let (rest', pool') = hand_customers item rest (if given then tick pool else pool) in
      ((if given then hand_customer pool item c else c) ∷ rest', pool')

  unfoldable pub hand_item : HandoverItem → Pool → Pool
  unfolding hand_customers
  hand_item item pool =
      let (customers, pool') = hand_customers item pool.customers pool in
      record pool' { customers = customers }

  module _ (text_contains : String → String → Bool) where
    -- The loop over the items: `false` where one of them ends it.
    unfoldable pub hand_items : List HandoverItem → Pool → Bool × Pool
    unfolding is_refused hand_item
    hand_items [] pool = (true, pool)
    hand_items (item ∷ rest) pool =
        let handed = hand_items rest (hand_item item pool) in
        if is_refused text_contains item then (false, pool) else handed

    unfoldable pub closed : Desk → Bool × Pool → Reply (List HandoverItem) × Desk
    closed desk (true, pool) = (ok [], record desk { pool = pool; handover = [] })
    closed desk (false, pool) =
        (err_bad_request "receiver is required for forced handover", record desk { pool = pool })

    -- `none` is a body that does not decode.
    unfoldable pub submit_handover :
        Option (List HandoverItem) → Desk → Reply (List HandoverItem) × Desk
    unfolding hand_items closed
    submit_handover none desk =
        if desk.wecom_synced
        then (err_bad_request "invalid body", desk)
        else (err_bad_request "sync wecom leave data first", desk)
    submit_handover (some items) desk =
        if desk.wecom_synced
        then closed desk (hand_items items desk.pool)
        else (err_bad_request "sync wecom leave data first", desk)
