-- ===== src/Tests/Crm.antt =====
-- Runs of the customer pool and of the worker.
use jianghu_scrm.Crm.Worker.{
  is_due, is_left, is_finished, done_status, fail_item, attempted, tag_item, tag_customer,
  process_batch_tag_item, process_task_item, start_task, keep_item, run_items, finish_task_if_done,
  run_task, keep_task, run_tasks,
}
use jianghu_scrm.Crm.Pool.{tick, prepend_audit, audit, put_customer}
use jianghu_scrm.Utils.{append_new, append_unique, contains, default_string}
use jianghu_scrm.Prelude.{
  update_first, join, map, ◌+◌, ◌≤◌, ◌-◌, ◌≡◌, String, some, [], ◌∷◌, refl, count, all, find, arith,
  Option, map, if◌then◌else◌,
}
use jianghu_scrm.Tests.Samples.{outside_1, wang, pool_1, event_of, batch, item_of}
use jianghu_scrm.Crm.Actions.{Bodies, customer_action_handler}
use jianghu_scrm.Crm.Worker.{
  process_queued_task_items, Queue, process_queued_events, run_tasks, keep_task, run_task,
  finish_task_if_done, run_items, is_due,
}
use jianghu_scrm.Crm.Progress.{
  done_all, has_status, is_queued, process_queued_events-count, process_queued_task_items-counts,
}
use jianghu_scrm.Crm.Relations.{AreLed, is_main, customer_action_handler-AreLed, owned_by, IsLed}
use jianghu_scrm.Crm.Pool.{find_customer}
use jianghu_scrm.Models.Crm.{Customer}
use jianghu_scrm.Models.Queue.{BatchTagTaskPayload}
use jianghu_scrm.Crm.Batch.{batch_tags, batch_tags-tags}

abbrev bodies_1 : Bodies
bodies_1 = record {
  touch = λ body. ("", "");
  detail = λ body. "";
  relation = λ body. some ("g3", "Sun");
  order = λ body. ("", "");
}

IsLed-wang : IsLed "Li" wang.relations
unfolding count all is_main owned_by
IsLed-wang = record { one = omega arith; owns = refl }

found_wang : (id : String) (c : Customer) → find_customer id pool_1 ≡ some c → c ≡ wang
unfolding find_customer find
found_wang id c f = ground (arith, f)

pool_1-AreLed : AreLed pool_1
pool_1-AreLed = record { at = λ id c f. rw (found_wang id c f) IsLed-wang }

customer_action_handler-AreLed_example :
    AreLed
      (customer_action_handler outside_1 bodies_1 "" "c1"
        ("relations" ∷ "r2" ∷ "set-main" ∷ [])
        pool_1).1
customer_action_handler-AreLed_example =
    customer_action_handler-AreLed outside_1 bodies_1 "" "c1" ("relations" ∷ "r2" ∷ "set-main" ∷ [])
      pool_1 pool_1-AreLed

process_queued_events-count_example :
    (count
        (has_status "queued")
        (process_queued_events "now" 1 (event_of "queued" ∷ event_of "queued" ∷ []))
      ≡ count (has_status "queued") (event_of "queued" ∷ event_of "queued" ∷ []) - 1)
    × (count
            (has_status "processed")
            (process_queued_events "now" 1 (event_of "queued" ∷ event_of "queued" ∷ []))
          + count
              (has_status "queued")
              (process_queued_events "now" 1 (event_of "queued" ∷ event_of "queued" ∷ []))
        ≡ count (has_status "processed") (event_of "queued" ∷ event_of "queued" ∷ [])
          + count (has_status "queued") (event_of "queued" ∷ event_of "queued" ∷ []))
process_queued_events-count_example =
    process_queued_events-count "now" 1 (event_of "queued" ∷ event_of "queued" ∷ [])

abbrev payload_1 : String → Option BatchTagTaskPayload
payload_1 text =
    some (record { customer_i_ds = "c1" ∷ "c2" ∷ []; tags = "VIP" ∷ []; operator = "" })

abbrev round : Queue
round =
    process_queued_task_items outside_1 payload_1 5 (batch ∷ [])
      (item_of "i1" "c1" ∷ item_of "i2" "c2" ∷ []) pool_1

process_queued_task_items-counts_example :
    (done_all round.tasks + count is_queued round.items
      ≡ done_all (batch ∷ []) + count is_queued (item_of "i1" "c1" ∷ item_of "i2" "c2" ∷ []))
    × (count is_queued (item_of "i1" "c1" ∷ item_of "i2" "c2" ∷ [])
        ≤ 5 + count is_queued round.items)
process_queued_task_items-counts_example =
    process_queued_task_items-counts outside_1 payload_1 5 (batch ∷ [])
      (item_of "i1" "c1" ∷ item_of "i2" "c2" ∷ []) pool_1

-- One customer is tagged, the other one is not there: the task ends half done.
ran : map (λ t. t.status) round.tasks ≡ "partial_failed" ∷ []
unfolding process_queued_task_items find_customer find run_tasks keep_task run_task
    finish_task_if_done run_items is_due start_task keep_item process_task_item
    process_batch_tag_item tag_item tag_customer attempted put_customer update_first tick
    prepend_audit audit done_status fail_item is_finished is_left join append_new append_unique
    contains default_string
ran = refl

abbrev vip : BatchTagTaskPayload
vip = record { customer_i_ds = "c1" ∷ []; tags = "VIP" ∷ []; operator = "" }

batch_tags-tags_example :
    map (λ c. c.tags) (batch_tags outside_1 (some vip) pool_1).1.customers
    ≡ map
        (λ c. if contains vip.customer_i_ds c.id then append_unique c.tags vip.tags else c.tags)
        pool_1.customers
batch_tags-tags_example = batch_tags-tags outside_1 vip "c1" [] pool_1 refl
