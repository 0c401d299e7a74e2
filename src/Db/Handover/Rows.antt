-- ===== src/Db/Handover/Rows.antt =====
-- The rows of a handover on the database, and the statements on them (backend/handover.go).
use jianghu_scrm.Utils.{default_string}
use jianghu_scrm.Prelude.{
  ℕ, String, List, find, stable_sort, Option, Bool, some, false, insert, none, if◌then◌else◌, ◌==◌,
  ◌&&◌, ltb, ◌||◌,
}
use jianghu_scrm.Db.Tables.{coalesce}
use jianghu_scrm.Models.Crm.{HandoverItem}
use jianghu_scrm.Ops.Http.{Reply, err_not_found, ok, err_bad_request}

pub record StaffRelation : Type 0 where
  pub id : String
  pub customer_id : String
  pub staff_id : String
  pub staff_name : String
  pub via_code_id : String
  pub store_id : String
  pub is_main_follow : Bool
  pub status : String
  pub ended_at : Option ℕ

pub record OwnedCustomer : Type 0 where
  pub id : String
  pub name : String
  pub owner_staff_id : String
  pub owner_staff_name : String
  pub lifecycle_stage : String
  pub source_store_id : Option String
  pub updated_at : ℕ

pub record StoreStaff : Type 0 where
  pub id : String
  pub store_id : String
  pub name : String
  pub updated_at : ℕ

-- A row of store_handover_items.
pub record HandoverRow : Type 0 where
  pub store_id : String
  pub item : HandoverItem
  pub updated_at : ℕ
  pub submitted_at : Option ℕ

pub record HandoverEvent : Type 0 where
  pub customer_id : String
  pub object_id : String
  pub people : String
  pub detail : String

pub record HandoverTables : Type 0 where
  pub synced_stores : List String
  pub items : List HandoverRow
  pub guides : List StoreStaff
  pub customers : List OwnedCustomer
  pub relations : List StaffRelation
  pub events : List HandoverEvent
  pub drawn : ℕ  -- calls of `newID` so far

unfoldable pub is_active_main : String → StaffRelation → Bool
is_active_main customer r = r.customer_id == customer && r.status == "active" && r.is_main_follow

unfoldable pub end_relation : ℕ → StaffRelation → StaffRelation
unfolding coalesce
end_relation now r = record r {
  status = "ended";
  ended_at = coalesce r.ended_at now;
  is_main_follow = false;
}

-- The row that an item of the payload names, with what the payload says in place of empty texts.
unfoldable pub override : HandoverItem → HandoverItem → HandoverItem
unfolding default_string
override item stored = record stored {
  required_action = default_string item.required_action stored.required_action;
  reason = default_string item.reason stored.reason;
  current_owner = default_string item.current_owner stored.current_owner;
  customer = default_string item.customer stored.customer;
  receiver = default_string item.receiver stored.receiver;
}

unfoldable pub names_row : String → HandoverItem → HandoverRow → Bool
names_row store item row =
    row.store_id == store
    && (if item.id == "" then row.item.customer_id == item.customer_id else row.item.id == item.id)

unfoldable pub stored_or_not_found : HandoverItem → Option HandoverRow → Reply HandoverItem
unfolding override
stored_or_not_found item none = err_not_found
stored_or_not_found item (some row) = ok (override item row.item)

unfoldable pub handover_item_db_tx : String → HandoverItem → HandoverTables → Reply HandoverItem
unfolding stored_or_not_found find names_row
handover_item_db_tx store item db =
    if item.id == "" && item.customer_id == ""
    then err_bad_request "handover item id is required"
    else stored_or_not_found item (find (names_row store item) db.items)

unfoldable pub is_guide_of : String → String → StoreStaff → Bool
is_guide_of store receiver g = g.store_id == store && (g.id == receiver || g.name == receiver)

unfoldable pub guide_or_receiver : String → Option StoreStaff → String × String
guide_or_receiver receiver none = (receiver, receiver)
guide_or_receiver receiver (some g) = (g.id, g.name)

-- ORDER BY updated_at DESC LIMIT 1
unfoldable pub resolve_guide_for_handover : String → String → HandoverTables → String × String
unfolding guide_or_receiver is_guide_of find stable_sort insert
resolve_guide_for_handover store receiver db = guide_or_receiver receiver (
    find (is_guide_of store receiver)
      (stable_sort (λ a b. ltb b.updated_at a.updated_at) db.guides))

-- an item's row after its submission
unfoldable pub submit_row : ℕ → String → String → HandoverRow → HandoverRow
submit_row now receiver status row = record row {
  item = record row.item { receiver = receiver; status = status };
  updated_at = now;
  submitted_at = some now;
}

unfoldable pub ignore_row : ℕ → HandoverRow → HandoverRow
ignore_row now row = record row {
  item = record row.item { status = "已忽略" };
  updated_at = now;
  submitted_at = some now;
}

unfoldable pub is_item_row : String → String → HandoverRow → Bool
is_item_row store id row = row.item.id == id && row.store_id == store

unfoldable pub is_customer : String → OwnedCustomer → Bool
is_customer id c = c.id == id

unfoldable pub hand_to : ℕ → String → String → OwnedCustomer → OwnedCustomer
hand_to now guide_id guide_name c = record c {
  owner_staff_id = guide_id;
  owner_staff_name = guide_name;
  lifecycle_stage = "新客待转化";
  updated_at = now;
}
