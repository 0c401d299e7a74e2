-- ===== src/Tests/Db.antt =====
-- Runs of the parts on the database.
use jianghu_scrm.Crm.Inbox.{Inbox, EventPayload, post_event}
use jianghu_scrm.Db.Worker.{process_queued_db_work, QueuedItem, process_queued_db_task_item}
use jianghu_scrm.Prelude.{
  List, any, ℕ, String, find, count, ◌∷◌, Option, none, [], false, map, ◌+◌, some, ◌≡◌, refl, arith,
  ◌≤◌, true, inl, All, trim_space,
}
use jianghu_scrm.Db.InboxRefines.{
  reply_of_row, IsFresh, Refines, reply_of_memory, post_db_event-Refines,
}
use jianghu_scrm.Db.Tries.{tries_made, run_tries, tries_left, IsWithin, run_tries-ends}
use jianghu_scrm.Models.Crm.{HandoverItem}
use jianghu_scrm.Db.Tables.{Database, DbTaskItem, DbTask, update_where}
use jianghu_scrm.Db.Handover.{HandoverTables, submit_handover_db, is_active_main}
use jianghu_scrm.Db.Rounds.{IsBalanced, process_queued_db_work-IsBalanced}
use jianghu_scrm.Db.HandoverOwner.{AreOwned}
use jianghu_scrm.Db.Books.{has_result}
use jianghu_scrm.Db.Inbox.{post_db_event, raw_payload}
use jianghu_scrm.Tests.Samples.{outside_1}
use jianghu_scrm.Ops.Access.{post}
use jianghu_scrm.Models.Queue.{BatchTagTaskPayload}
use jianghu_scrm.Db.HandoverSubmit.{submit_handover_db-AreOwned}

abbrev db_task : DbTask
db_task = record {
  id = "t1";
  task_type = "batch_customer_tags";
  status = "queued";
  total_count = 1;
  success_count = 0;
  failed_count = 0;
  payload = "";
  created_by = "op";
  created_at = 0;
  started_at = none;
  finished_at = none;
  last_error = "";
}

abbrev db_item : DbTaskItem
db_item = record {
  id = "i1";
  task_id = "t1";
  target_id = "c1";
  status = "queued";
  attempts = 0;
  result = "{}";
  last_error = "";
  next_attempt_at = 0;
  updated_at = 0;
}

abbrev db_1 : Database
db_1 = record {
  tasks = db_task ∷ [];
  task_items = db_item ∷ [];
  event_inbox = [];
  customers = record { id = "c1"; name = "Wang"; updated_at = 0 } ∷ [];
  tag_groups = [];
  tags = [];
  customer_tags = [];
  customer_events = [];
  drawn = 0;
}

abbrev suffix_1 : ℕ → String
suffix_1 n = "1"

abbrev vip : String → Option BatchTagTaskPayload
vip s = some (record { customer_i_ds = "c1" ∷ []; tags = "vip" ∷ []; operator = "" })

abbrev broken : String → Option BatchTagTaskPayload
broken s = none

-- One round tags the customer and completes the task.
status_after :
    map (λ t. t.status) (process_queued_db_work suffix_1 vip 3 2000 5 20 db_1).tasks
    ≡ "completed" ∷ []
unfolding process_queued_db_work
status_after = refl

db_1-IsBalanced : IsBalanced db_1
unfolding count has_result
db_1-IsBalanced = record { apart = (tt, tt); tallied = ((refl, refl), tt) }

process_queued_db_work-IsBalanced_example :
    IsBalanced (process_queued_db_work suffix_1 vip 3 2000 5 20 db_1)
process_queued_db_work-IsBalanced_example =
    process_queued_db_work-IsBalanced suffix_1 vip 3 2000 5 20 db_1 db_1-IsBalanced

abbrev picked : QueuedItem
picked = record {
  id = "i1";
  task_id = "t1";
  target_id = "c1";
  task_type = "batch_customer_tags";
  payload = "";
  created_by = "op";
}

abbrev four_tries : List (ℕ × QueuedItem)
four_tries = (1, picked) ∷ (2, picked) ∷ (3, picked) ∷ (4, picked) ∷ []

-- An item that fails is a dead letter after its third try.
dead_after :
    map (λ i. i.status) (run_tries suffix_1 broken 3 2000 four_tries db_1).task_items
    ≡ "dead_letter" ∷ []
unfolding run_tries process_queued_db_task_item
dead_after = refl

run_tries-ends_example :
    (tries_made suffix_1 broken 3 2000 four_tries db_1
        + tries_left 3 (run_tries suffix_1 broken 3 2000 four_tries db_1).task_items
      ≤ tries_left 3 db_1.task_items)
    × All (IsWithin 3) (run_tries suffix_1 broken 3 2000 four_tries db_1).task_items
run_tries-ends_example =
    run_tries-ends suffix_1 broken 3 2000 four_tries db_1
      (record { apart = (tt, tt); within = ((omega arith, λ q. omega arith), tt) })

abbrev inbox_0 : Inbox
inbox_0 = record { events = []; drawn = 0; readings = 0 }

abbrev posted_1 : EventPayload
posted_1 = record {
  id = "";
  event_id = "e1";
  source = "shop";
  type = "order";
  object_id = "";
  idempotency_key = "k1";
  payload = " {}";
}

abbrev jsonb_1 : String → Option String
jsonb_1 s = some (trim_space s)

accepted_1 : jsonb_1 (raw_payload posted_1) ≡ some "{}"
unfolding raw_payload trim_space
accepted_1 = refl

db_1-Refines : Refines jsonb_1 db_1 inbox_0
unfolding find
db_1-Refines = record { events = λ k. refl; draws = refl }

new_id_1 : IsFresh outside_1 5 posted_1 db_1
unfolding any
new_id_1 = inl refl

post_db_event-Refines_example :
    (reply_of_row (post_db_event outside_1.suffix 5 jsonb_1 posted_1 db_1).0
      ≡ reply_of_memory jsonb_1 (post_event outside_1 posted_1 inbox_0).0)
    × Refines jsonb_1
        (post_db_event outside_1.suffix 5 jsonb_1 posted_1 db_1).1
        (post_event outside_1 posted_1 inbox_0).1
post_db_event-Refines_example =
    post_db_event-Refines outside_1 5 posted_1 jsonb_1 "{}" accepted_1 db_1 inbox_0 db_1-Refines
      new_id_1

abbrev handover_1 : HandoverTables
handover_1 = record {
  synced_stores = "s1" ∷ [];
  items = [];
  guides = [];
  customers =
      record {
        id = "c1";
        name = "Wang";
        owner_staff_id = "g1";
        owner_staff_name = "Li";
        lifecycle_stage = "待交接";
        source_store_id = some "s1";
        updated_at = 0;
      }
      ∷ [];
  relations =
      record {
        id = "r1";
        customer_id = "c1";
        staff_id = "g1";
        staff_name = "Li";
        via_code_id = "";
        store_id = "s1";
        is_main_follow = true;
        status = "active";
        ended_at = none;
      }
      ∷ [];
  events = [];
  drawn = 0;
}

abbrev given : HandoverItem
given = record {
  id = "h1";
  customer_id = "c1";
  customer = "Wang";
  reason = "";
  current_owner = "Li";
  required_action = "强制指派";
  receiver = "g2";
  status = "待处理";
}

abbrev handover_2 : HandoverTables
handover_2 = record handover_1 {
  items = record { store_id = "s1"; item = given; updated_at = 0; submitted_at = none } ∷ [];
}

owner_after :
    map
      (λ c. c.owner_staff_id)
      (submit_handover_db suffix_1
        (λ s t. false)
        5
        "s1"
        post
        (some (given ∷ []))
        handover_2).1.customers
    ≡ "g2" ∷ []
unfolding submit_handover_db update_where is_active_main
owner_after = refl

handover_2-AreOwned : AreOwned handover_2
unfolding count is_active_main
handover_2-AreOwned = (record { one = omega arith; owner = (λ h. refl, tt) }, tt)

submit_handover_db-AreOwned_example :
    AreOwned
      (submit_handover_db suffix_1 (λ s t. false) 5 "s1" post (some (given ∷ [])) handover_2).1
submit_handover_db-AreOwned_example =
    submit_handover_db-AreOwned suffix_1 (λ s t. false) 5 "s1" post (some (given ∷ [])) handover_2
      handover_2-AreOwned
