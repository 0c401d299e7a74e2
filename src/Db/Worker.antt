-- ===== src/Db/Worker.antt =====
-- The worker on the database: `processQueuedDBEvents`, `processQueuedDBTaskItems`,
-- `processQueuedDBTaskItem`, `processDBBatchTagItem` and `ensureDBTag` of backend/workers.go. `now` is
-- the database's clock in the transaction; times are milliseconds.
mod Items
unfoldable pub use Items.*
use jianghu_scrm.Prelude.{
  ℕ, String, ◌+◌, if◌then◌else◌, List, stable_sort, Option, ◌==◌, eqb, Bool, leb, insert, some, map,
  any, true, ◌∷◌, find, ◌++◌, trim_space, ◌&&◌, ◌<>◌, none, [], ltb, ◌||◌, take, false, less,
}
use jianghu_scrm.Db.Tables.{
  update_where, coalesce, DbTask, DbEvent, DbTaskItem, Database, DbCustomerTag, DbTag, DbCustomer,
}
use jianghu_scrm.Utils.{filter, contains, default_string}
use jianghu_scrm.Models.Queue.{BatchTagTaskPayload}

-- The identifiers are drawn at random, and the JSON decoder is Go's.
module _ (suffix : ℕ → String) (payload_of : String → Option BatchTagTaskPayload) where
  unfoldable pub db_tag_by_name : String → List DbTag → Option DbTag
  unfolding find stable_sort insert
  db_tag_by_name name tags =
      find (λ t. t.name == name) (stable_sort (λ a b. ltb a.created_at b.created_at) tags)

  -- INSERT INTO tag_groups ... ON CONFLICT (id) DO NOTHING
  unfoldable pub ensure_auto_group : List String → List String
  unfolding contains
  ensure_auto_group groups =
      if contains groups "tg-auto-task" then groups else groups ++ "tg-auto-task" ∷ []

  unfoldable pub add_db_tag : ℕ → String → Database → String × Database
  unfolding ensure_auto_group
  add_db_tag now name db =
      let id = "tag" <> suffix db.drawn in
      (
        id,
        record db {
          tag_groups = ensure_auto_group db.tag_groups;
          tags =
              db.tags
              ++ record {
                id = id;
                tag_group_id = "tg-auto-task";
                name = name;
                status = "active";
                created_at = now;
              }
                ∷ [];
          drawn = db.drawn + 1;
        },
      )

  unfoldable pub tag_or_new : ℕ → String → Database → Option DbTag → String × Database
  unfolding add_db_tag
  tag_or_new now name db (some tag) = (tag.id, db)
  tag_or_new now name db none = add_db_tag now name db

  unfoldable pub ensure_db_tag : ℕ → String → Database → String × Database
  unfolding db_tag_by_name tag_or_new
  ensure_db_tag now name db = tag_or_new now name db (db_tag_by_name name db.tags)

  unfoldable pub is_db_link : String → String → DbCustomerTag → Bool
  is_db_link customer tag l = l.customer_id == customer && l.tag_id == tag

  -- INSERT INTO customer_tags ... ON CONFLICT (customer_id, tag_id) DO UPDATE SET source
  unfoldable pub upsert_link : String → String → String → List DbCustomerTag → List DbCustomerTag
  unfolding any is_db_link update_where
  upsert_link customer tag source links =
      if any (is_db_link customer tag) links
      then update_where (is_db_link customer tag) (λ l. record l { source = source }) links
      else links ++ record { customer_id = customer; tag_id = tag; source = source } ∷ []

  unfoldable pub link_db_tag : ℕ → String → String → String → Database → Database
  unfolding ensure_db_tag upsert_link trim_space
  link_db_tag now customer source name db =
      if trim_space name == ""
      then db
      else let (tag, db') = ensure_db_tag now (trim_space name) db in
        record db' { customer_tags = upsert_link customer tag source db'.customer_tags }

  unfoldable pub link_db_tags : ℕ → String → String → List String → Database → Database
  unfolding link_db_tag
  link_db_tags now customer source [] db = db
  link_db_tags now customer source (name ∷ names) db =
      link_db_tags now customer source names (link_db_tag now customer source name db)

  unfoldable pub tag_db_customer :
      ℕ → QueuedItem → BatchTagTaskPayload → Option DbCustomer → Database → Option String × Database
  unfolding link_db_tags update_where default_string
  tag_db_customer now q p none db = (some "customer not found", db)
  tag_db_customer now q p (some c) db =
      let linked = link_db_tags now q.target_id ("task:" <> q.task_id) p.tags db in
      (
        none,
        record linked {
          customers =
              update_where (λ x. x.id == q.target_id) (λ x. record x { updated_at = now })
                linked.customers;
          customer_events =
              linked.customer_events
              ++ record {
                id = "cev" <> suffix linked.drawn;
                customer_id = q.target_id;
                event_type = "batch_customer_tags";
                source = "task_worker";
                object_id = q.task_id;
                tags = p.tags;
                operator = default_string p.operator q.created_by;
              }
                ∷ [];
          drawn = linked.drawn + 1;
        },
      )

  unfoldable pub is_untagged : List String → Bool
  is_untagged [] = true
  is_untagged (_ ∷ _) = false

  unfoldable pub process_payload :
      ℕ → QueuedItem → Option BatchTagTaskPayload → Database → Option String × Database
  unfolding tag_db_customer is_untagged find
  process_payload now q none db = (some "invalid task payload", db)
  process_payload now q (some p) db =
      if is_untagged p.tags
      then (some "tags is required", db)
      else tag_db_customer now q p (find (λ c. c.id == q.target_id) db.customers) db

  unfoldable pub process_db_batch_tag_item : ℕ → QueuedItem → Database → Option String × Database
  unfolding process_payload
  process_db_batch_tag_item now q db = process_payload now q (payload_of q.payload) db

  unfoldable pub try_item : ℕ → QueuedItem → Database → Option String × Database
  unfolding process_db_batch_tag_item
  try_item now q db =
      if q.task_type == "batch_customer_tags"
      then process_db_batch_tag_item now q db
      else (some "unsupported task type", db)

  module _ (max_attempts delay : ℕ) where
    -- The try of an item that was claimed; `attempts` counts this try.
    unfoldable pub process_claimed : ℕ → QueuedItem → Option DbTaskItem → Database → Database
    unfolding try_item outcome_of items_after tasks_after
    process_claimed now q none db = db
    process_claimed now q (some i) db =
        let (error, tried) = try_item now q db in
        let outcome = outcome_of (i.attempts + 1) max_attempts error in
        record tried {
          task_items = items_after now delay q.id outcome db.task_items;
          tasks = tasks_after now q.task_id outcome db.tasks;
        }

    unfoldable pub process_queued_db_task_item : ℕ → QueuedItem → Database → Database
    unfolding process_claimed find is_claimable
    process_queued_db_task_item now q db =
        process_claimed now q (find (is_claimable q.id) db.task_items) db

    -- The tries of a round follow one another.
    unfoldable pub process_items : ℕ → List QueuedItem → Database → Database
    unfolding process_queued_db_task_item
    process_items now [] db = db
    process_items now (q ∷ rest) db = process_items now rest (process_queued_db_task_item now q db)

    unfoldable pub is_due_item : ℕ → DbTaskItem → Bool
    is_due_item now i = i.status == "queued" && leb i.next_attempt_at now

    unfoldable pub join_task : DbTaskItem → Option DbTask → List (ℕ × QueuedItem)
    join_task i none = []
    join_task i (some t) =
        if t.status == "queued" || t.status == "running"
        then (
          t.created_at,
          record {
            id = i.id;
            task_id = i.task_id;
            target_id = i.target_id;
            task_type = t.task_type;
            payload = t.payload;
            created_by = t.created_by;
          },
        )
          ∷ []
        else []

    unfoldable pub due_items : ℕ → List DbTask → List DbTaskItem → List (ℕ × QueuedItem)
    unfolding is_due_item join_task find
    due_items now tasks [] = []
    due_items now tasks (i ∷ items) =
        (if is_due_item now i then join_task i (find (λ t. t.id == i.task_id) tasks) else [])
        ++ due_items now tasks items

    -- ORDER BY t.created_at, ti.id
    unfoldable pub comes_first : ℕ × QueuedItem → ℕ × QueuedItem → Bool
    comes_first (s, a) (t, b) = ltb s t || (eqb s t && less a.id b.id)

    unfoldable pub selected : ℕ → ℕ → Database → List QueuedItem
    unfolding due_items comes_first stable_sort insert
    selected now batch_size db =
        map (λ p. p.1)
          (take batch_size (stable_sort comes_first (due_items now db.tasks db.task_items)))

    unfoldable pub process_queued_db_task_items : ℕ → ℕ → Database → Database
    unfolding selected process_items
    process_queued_db_task_items now batch_size db =
        process_items now (selected now batch_size db) db

    unfoldable pub process_queued_db_work : ℕ → ℕ → Database → Database
    unfolding process_queued_db_events process_queued_db_task_items
    process_queued_db_work now batch_size db =
        process_queued_db_task_items now batch_size (process_queued_db_events now batch_size db)
