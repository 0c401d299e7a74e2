-- ===== src/Db/Handover.antt =====
-- The handover of a store's customers on the database: `syncHandoverDB`, `submitHandoverDB` and what
-- they call in backend/handover.go. An error in a transaction rolls it back. `strings.Contains`
-- belongs to Go's library. `now` is the database's clock; times are milliseconds. A SELECT with no
-- order that fits several rows reads the first of them.
mod Rows
unfoldable pub use Rows.*
use jianghu_scrm.Utils.{default_string, contains, filter}
use jianghu_scrm.Prelude.{
  ℕ, String, List, find, stable_sort, Option, Bool, ◌<>◌, some, false, trim_space, insert, none,
  if◌then◌else◌, ◌==◌, true, map, ◌++◌, ◌&&◌, ◌∷◌, ltb, ◌||◌, [], not, ◌+◌,
}
use jianghu_scrm.Db.Tables.{coalesce, update_where}
use jianghu_scrm.Models.Crm.{HandoverItem}
use jianghu_scrm.Ops.Http.{Reply, err_not_found, ok, err_bad_request, is_post, is_patch}
use jianghu_scrm.Ops.Access.{Method}

module _ (suffix : ℕ → String) where
  unfoldable pub new_relation : String → HandoverItem → String → String → ℕ → StaffRelation
  new_relation store item guide_id guide_name drawn = record {
    id = "r" <> suffix drawn;
    customer_id = item.customer_id;
    staff_id = guide_id;
    staff_name = guide_name;
    via_code_id = "handover:" <> item.id;
    store_id = store;
    is_main_follow = true;
    status = "active";
    ended_at = none;
  }

  -- The customer's name and whether the customer is there; the name of the payload where it is not.
  unfoldable pub apply_to_customer :
      ℕ
      → String
      → HandoverItem
      → String
      → String
      → Option OwnedCustomer
      → HandoverTables
      → (String × Bool) × HandoverTables
  unfolding update_where is_customer hand_to is_active_main end_relation new_relation
  apply_to_customer now store item guide_id guide_name none db = ((item.customer, false), db)
  apply_to_customer now store item guide_id guide_name (some c) db = (
    (c.name, true),
    record db {
      customers =
          update_where (is_customer item.customer_id) (hand_to now guide_id guide_name)
            db.customers;
      relations =
          update_where (is_active_main item.customer_id) (end_relation now) db.relations
          ++ new_relation store item guide_id guide_name db.drawn ∷ [];
      drawn = db.drawn + 1;
    },
  )

  unfoldable pub apply_customer_handover_db :
      ℕ
      → String
      → HandoverItem
      → String
      → String
      → HandoverTables
      → (String × Bool) × HandoverTables
  unfolding apply_to_customer find
  apply_customer_handover_db now store item guide_id guide_name db =
      if item.customer_id == ""
      then ((item.customer, false), db)
      else apply_to_customer now store item guide_id guide_name
          (find (is_customer item.customer_id) db.customers) db

  -- The row of the item and the event, after the customer was handed over or was not there.
  unfoldable pub close_item :
      ℕ → String → HandoverItem → String → (String × Bool) × HandoverTables → HandoverTables
  unfolding update_where is_item_row submit_row
  close_item now store item guide_name ((customer_name, updated), db) = record db {
    items =
        update_where (is_item_row store item.id)
          (submit_row now guide_name (if updated then "已完成" else "客户未入库")) db.items;
    events =
        if updated
        then db.events
          ++ record {
            customer_id = item.customer_id;
            object_id = item.id;
            people = "客户：" <> customer_name <> "；接收人：" <> guide_name;
            detail = item.reason;
          }
            ∷ []
        else db.events;
    drawn = if updated then db.drawn + 1 else db.drawn;
  }

  unfoldable pub submit_stored :
      ℕ → String → String → HandoverItem → HandoverTables → HandoverTables
  unfolding resolve_guide_for_handover apply_customer_handover_db close_item update_where
      is_item_row ignore_row
  submit_stored now store receiver stored db =
      if receiver == ""
      then record db {
        items = update_where (is_item_row store stored.id) (ignore_row now) db.items;
      }
      else let (guide_id, guide_name) = resolve_guide_for_handover store receiver db in
        close_item now store stored guide_name
          (apply_customer_handover_db now store stored guide_id guide_name db)

  unfoldable pub submit_found :
      ℕ → String → HandoverItem → Reply HandoverItem → HandoverTables → Reply HandoverTables
  unfolding submit_stored trim_space
  submit_found now store item (ok stored) db =
      ok (submit_stored now store (trim_space item.receiver) stored db)
  submit_found now store item err_not_found db = err_not_found
  submit_found now store item (err_bad_request message) db = err_bad_request message

  module _ (text_contains : String → String → Bool) where
    unfoldable pub submit_item : ℕ → String → HandoverItem → HandoverTables → Reply HandoverTables
    unfolding submit_found handover_item_db_tx
    submit_item now store item db =
        if item.receiver == "" && text_contains item.required_action "强制"
        then err_bad_request "receiver is required for forced handover"
        else submit_found now store item (handover_item_db_tx store item db) db

    -- The loop of the transaction: the first error ends it.
    unfoldable pub submit_items :
        ℕ → String → List HandoverItem → HandoverTables → Reply HandoverTables
    unfolding submit_item
    submit_items now store [] db = ok db
    submit_items now store (item ∷ rest) db = elim (submit_item now store item db) [
      | ok db' ↦ submit_items now store rest db'
      | err_not_found ↦ err_not_found
      | err_bad_request message ↦ err_bad_request message
    ]

    abbrev pub open_items : String → HandoverTables → List HandoverItem
    open_items store db =
        map (λ row. row.item)
          (filter
            (λ row.
              row.store_id == store
              && not (
                  row.item.status == "已完成"
                  || row.item.status == "已忽略"
                  || row.item.status == "客户未入库"))
            db.items)

    -- the commit of a transaction that had no error
    unfoldable pub commit :
        String → HandoverTables → Reply HandoverTables → Reply (List HandoverItem) × HandoverTables
    commit store db (ok db') = (ok (open_items store db'), db')
    commit store db err_not_found = (err_not_found, db)
    commit store db (err_bad_request message) = (err_bad_request message, db)

    unfoldable pub submit_handover_db :
        ℕ
        → String
        → Method
        → Option (List HandoverItem)
        → HandoverTables
        → Reply (List HandoverItem) × HandoverTables
    unfolding submit_items commit contains
    submit_handover_db now store method none db =
        if is_post method || is_patch method
        then (err_bad_request "invalid body", db)
        else (err_not_found, db)
    submit_handover_db now store method (some items) db =
        if is_post method || is_patch method
        then (if contains db.synced_stores store
            then commit store db (submit_items now store items db)
            else (err_bad_request "sync wecom leave data first", db))
        else (err_not_found, db)
